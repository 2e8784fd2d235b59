-- ===== src/Judge/Languages/Registry.antt =====
-- What `find` returns after any sequence of registrations.
use mathlib.Core.List.{append-nil, append_assoc}
use wave_judge.Prelude.{
  ◌≡◌, refl, sym, ◌∙◌, ap, Bool, false, ◌&&◌, Bool-cases, Option, none, some, List, [], ◌∷◌, ◌++◌,
  Text, text_eq, text_eq_sound, text_eq_refl, if◌then◌else◌, inl, inr,
}
use wave_judge.Judge.Languages.{
  LanguageBranch, LanguageIdentifier, LanguageProvider, LanguageManager, no_languages, has_branch,
  insert, register, register_all, get, find_branch, find_in, find,
}

-- A provider that is registered under the identifier's language with the identifier's branch.
abbrev pub serves : LanguageIdentifier → LanguageProvider → Bool
serves lang p = text_eq p.metadata.name lang.language && has_branch lang.branch p.metadata.branches

-- The first provider in the order of registration.
unfoldable pub first_serving : LanguageIdentifier → List LanguageProvider → Option LanguageProvider
first_serving lang [] = none
first_serving lang (p ∷ ps) = if serves lang p then some p else first_serving lang ps

-- The providers of one name, in order.
unfoldable pub named : Text → List LanguageProvider → List LanguageProvider
named name [] = []
named name (p ∷ ps) = if text_eq p.metadata.name name then p ∷ named name ps else named name ps

abbrev pub or_empty : Option (List LanguageProvider) → List LanguageProvider
or_empty none = []
or_empty (some ps) = ps

find_in-or_empty :
    (b : LanguageBranch) (o : Option (List LanguageProvider))
    → find_in b o ≡ find_branch b (or_empty o)
unfolding find_in find_branch
find_in-or_empty b none = refl
find_in-or_empty b (some ps) = refl

-- A registration adds the provider to the entry of its name, and leaves the other entries.
get-insert_same :
    (p : LanguageProvider) (es : List (Text × List LanguageProvider))
    → or_empty (get p.metadata.name (insert p es)) ≡ or_empty (get p.metadata.name es) ++ p ∷ []
unfolding get insert
get-insert_same p [] = rw (text_eq_refl p.metadata.name) refl
get-insert_same p ((key, prov) ∷ es) = elim (Bool-cases (text_eq key p.metadata.name)) [
  | inl same ↦ rw same (rw same refl)
  | inr other ↦ rw other (rw other (get-insert_same p es))
]

pub get-insert_other :
    (name : Text) (p : LanguageProvider) (es : List (Text × List LanguageProvider))
    → text_eq p.metadata.name name ≡ false
    → get name (insert p es) ≡ get name es
unfolding get insert
get-insert_other name p [] h = rw h refl
get-insert_other name p ((key, prov) ∷ es) h = elim (Bool-cases (text_eq key p.metadata.name)) [
  | inl same ↦
      let off : text_eq key name ≡ false = rw (text_eq_sound key p.metadata.name same) h in
      rw same (rw off refl)
  | inr other ↦ rw other (rw (get-insert_other name p es h) refl)
]

get-insert :
    (name : Text) (p : LanguageProvider) (es : List (Text × List LanguageProvider))
    → or_empty (get name (insert p es)) ≡ or_empty (get name es) ++ named name (p ∷ [])
unfolding named
get-insert name p es = elim (Bool-cases (text_eq p.metadata.name name)) [
  | inl same ↦ rw (same, sym (text_eq_sound p.metadata.name name same)) (get-insert_same p es)
  | inr other ↦ rw (other, get-insert_other name p es other, append-nil) refl
]

named-cons :
    (name : Text) (p : LanguageProvider) (ps : List LanguageProvider)
    → named name (p ∷ []) ++ named name ps ≡ named name (p ∷ ps)
unfolding named
named-cons name p ps = elim (Bool-cases (text_eq p.metadata.name name)) [
  | inl same ↦ rw same refl
  | inr other ↦ rw other refl
]

get-register_all :
    (name : Text) (ps : List LanguageProvider) (m : LanguageManager)
    → or_empty (get name (register_all ps m).providers)
      ≡ or_empty (get name m.providers) ++ named name ps
unfolding register_all register named
get-register_all name [] m = sym (append-nil _)
get-register_all name (p ∷ ps) m =
    get-register_all name ps (register p m)
    ∙ rw (get-insert name p m.providers) (
        append_assoc _ (named name (p ∷ [])) (named name ps)
        ∙ ap (λ l. or_empty (get name m.providers) ++ l) (named-cons name p ps))

find_branch-named :
    (lang : LanguageIdentifier) (ps : List LanguageProvider)
    → find_branch lang.branch (named lang.language ps) ≡ first_serving lang ps
unfolding find_branch named first_serving
find_branch-named lang [] = refl
find_branch-named lang (p ∷ ps) = elim (Bool-cases (text_eq p.metadata.name lang.language)) [
  | inl same ↦ rw same (rw (find_branch-named lang ps) refl)
  | inr other ↦ rw other (find_branch-named lang ps)
]

-- After any registrations, `find` returns the provider that was registered first among those of the
-- identifier's language that list its branch, and nothing when no registered provider does.
pub find-register_all :
    (lang : LanguageIdentifier) (ps : List LanguageProvider)
    → find lang (register_all ps no_languages) ≡ first_serving lang ps
unfolding find
find-register_all lang ps =
    find_in-or_empty lang.branch (get lang.language (register_all ps no_languages).providers)
    ∙ rw (get-register_all lang.language ps no_languages) (find_branch-named lang ps)
