-- ===== src/Judge/Languages/Listing.antt =====
-- What `languages` lists after any sequence of registrations.
use wave_judge.Prelude.{
  ◌≡◌, refl, ◌∙◌, subst, Bool, true, false, ◌&&◌, ◌||◌, Bool-cases, Option, none, some, List, [],
  ◌∷◌, ◌++◌, map, Text, text_eq, text_eq_sound, text_eq_refl, inl, inr, arith,
}
use wave_judge.Judge.Languages.{
  LanguageBranch, LanguageIdentifier, LanguageProvider, LanguageManager, no_languages, branch_eq,
  has_branch, insert, register, register_all, get, find_branch, find_in, find, provider_languages,
  all_languages, languages,
}
use wave_judge.Judge.Languages.Registry.{get-insert_other}

-- `contains`, with the equality of `LanguageIdentifier`.
unfoldable pub listed : LanguageIdentifier → List LanguageIdentifier → Bool
unfolding branch_eq
listed lang [] = false
listed lang (x ∷ xs) =
    (text_eq x.language lang.language && branch_eq x.branch lang.branch) || listed lang xs

abbrev pub is_some : {A : Type 0} → Option A → Bool
is_some none = false
is_some (some a) = true

-- No name has two entries.
abbrev Unique : List (Text × List LanguageProvider) → Type 0
Unique [] = Unit
Unique ((name, prov) ∷ entries) = (get name entries ≡ none) × Unique entries

text_eq-swap : (s t : Text) → text_eq s t ≡ false → text_eq t s ≡ false
text_eq-swap s t h = elim (Bool-cases (text_eq t s)) [
  | inl same ↦ absurd (differ (text_eq_sound t s same) h)
  | inr other ↦ other
]
  where
    differ : t ≡ s → text_eq s t ≡ false → ⊥
    differ e g = cc (e, g, text_eq_refl s)

insert-Unique :
    (p : LanguageProvider) (entries : List (Text × List LanguageProvider))
    → Unique entries
    → Unique (insert p entries)
unfolding insert get
insert-Unique p [] u = (refl, tt)
insert-Unique p ((name, prov) ∷ entries) (absent, u) =
    elim (Bool-cases (text_eq name p.metadata.name)) [
      | inl same ↦ rw same (absent, u)
      | inr other ↦ rw other (
        get-insert_other name p entries (text_eq-swap name p.metadata.name other) ∙ absent,
        insert-Unique p entries u,
      )
    ]

register_all-Unique :
    (ps : List LanguageProvider) (m : LanguageManager)
    → Unique m.providers
    → Unique (register_all ps m).providers
unfolding register_all register
register_all-Unique [] m u = u
register_all-Unique (p ∷ ps) m u =
    register_all-Unique ps (register p m) (insert-Unique p m.providers u)

module _ (lang : LanguageIdentifier) where
  listed-append :
      (xs ys : List LanguageIdentifier)
      → listed lang (xs ++ ys) ≡ (listed lang xs || listed lang ys)
  unfolding listed
  listed-append [] ys = refl
  listed-append (x ∷ xs) ys = rw (listed-append xs ys) (ground arith)

  listed-branches :
      (name : Text) (bs : List LanguageBranch)
      → listed lang (map (λ b. record { language = name; branch = b }) bs)
        ≡ (text_eq name lang.language && has_branch lang.branch bs)
  unfolding listed has_branch
  listed-branches name [] = ground arith
  listed-branches name (b ∷ bs) = rw (listed-branches name bs) (ground arith)

  listed-provider_languages :
      (name : Text) (ps : List LanguageProvider)
      → listed lang (provider_languages name ps)
        ≡ (text_eq name lang.language && is_some (find_branch lang.branch ps))
  unfolding listed provider_languages find_branch
  listed-provider_languages name [] = ground arith
  listed-provider_languages name (p ∷ ps) =
      listed-append _ (provider_languages name ps)
      ∙ rw (listed-branches name p.metadata.branches)
          (rw (listed-provider_languages name ps) (ground arith))

  by_name :
      (name : Text) (prov : List LanguageProvider) (entries : List (Text × List LanguageProvider))
      → get name entries ≡ none
      → ((text_eq name lang.language && is_some (find_branch lang.branch prov))
          || is_some (find_in lang.branch (get lang.language entries)))
        ≡ is_some (find_in lang.branch (get lang.language ((name, prov) ∷ entries)))
  unfolding get find_in
  by_name name prov entries absent = elim (Bool-cases (text_eq name lang.language)) [
    | inl same ↦
        let gone : get lang.language entries ≡ none =
          subst (λ n. get n entries ≡ none) (text_eq_sound name lang.language same) absent in
        rw same (rw gone (ground arith))
    | inr other ↦ rw other refl
  ]

  listed-all_languages :
      (entries : List (Text × List LanguageProvider))
      → Unique entries
      → listed lang (all_languages entries)
        ≡ is_some (find_in lang.branch (get lang.language entries))
  unfolding listed all_languages get find_in
  listed-all_languages [] u = refl
  listed-all_languages ((name, prov) ∷ entries) (absent, u) =
      listed-append (provider_languages name prov) (all_languages entries)
      ∙ rw (listed-provider_languages name prov)
          (rw (listed-all_languages entries u) (by_name name prov entries absent))

-- After any registrations, a language is in the list of `languages` exactly when `find` finds a
-- provider for it.
pub languages-find :
    (lang : LanguageIdentifier) (ps : List LanguageProvider)
    → listed lang (languages (register_all ps no_languages))
      ≡ is_some (find lang (register_all ps no_languages))
unfolding languages find
languages-find lang ps =
    listed-all_languages lang (register_all ps no_languages).providers
      (register_all-Unique ps no_languages tt)
