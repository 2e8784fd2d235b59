-- ===== src/Driver/Archives/Described.antt =====
-- The described files of a test case, and the files of the archive they come from.
use wave_judge.Prelude.{
  Option, none, some, List, [], ◌∷◌, Text, ◌≡◌, ◌≢◌, ◌⊎◌, inl, inr, refl, sym, subst, ◌∙◌, ap,
  arith, text_eq_sound, text_eq_refl, Option-cases,
}
use mathlib.Core.List.{Memᴰ}
use wave_judge.Driver.Archives.Names.{seen, files_of, nothing}
use wave_judge.Driver.Archives.{
  EntryKind, unknown, input_file, answer_file, get_kind, strip_extension, Files,
}

-- `p` is among the files `ps` and is the input file or the answer file of the test case `k`.
pub record IsFile (κ : EntryKind) (k : Text) (ps : List Text) (p : Text) : Type 0 where
  pub there : Memᴰ p ps
  pub of_kind : get_kind p ≡ κ
  pub named : strip_extension p ≡ some k

abbrev pub HasFile : EntryKind → Text → List Text → Type 0
HasFile κ k ps = (p : Text) × IsFile κ k ps p

later-IsFile :
    {κ : EntryKind} {k : Text} {ps : List Text} {p : Text} (q : Text)
    → IsFile κ k ps p
    → IsFile κ k (q ∷ ps) p
later-IsFile q f = record { there = Memᴰ.tail f.there; of_kind = f.of_kind; named = f.named }

abbrev part : EntryKind → Files → Option Text
part unknown r = none
part input_file r = r.input
part answer_file r = r.answer

-- The described files are files of the archive.
seen-part :
    (κ ν : EntryKind) (n : Option Text) (k p x : Text) (r : Files)
    → part κ (seen ν n k p r) ≡ some x
    → ((ν ≡ κ) × (n ≡ some k) × (p ≡ x)) ⊎ (part κ r ≡ some x)
unfolding seen
seen-part κ unknown n k p x r e = inr e
seen-part κ ν none k p x r e = inr (ground arith)
seen-part κ input_file (some n) k p x r e = ground (arith, text_eq_sound k n)
seen-part κ answer_file (some n) k p x r e = ground (arith, text_eq_sound k n)

files_of-part :
    (κ : EntryKind) (k p : Text) (ps : List Text) (r : Files)
    → part κ (files_of k ps r) ≡ some p
    → IsFile κ k ps p ⊎ (part κ r ≡ some p)
unfolding files_of
files_of-part κ k p [] r e = inr e
files_of-part κ k p (q ∷ ps) r e = elim (files_of-part κ k p ps _ e) [
  | inl f ↦ inl (later-IsFile q f)
  | inr now ↦ elim (seen-part κ (get_kind q) (strip_extension q) k q p r now) [
    | inl (of_kind, named, same) ↦ inl (
        subst (IsFile κ k (q ∷ ps)) same
          (record { there = Memᴰ.head refl; of_kind = of_kind; named = named }))
    | inr before ↦ inr before
  ]
]

-- A file of the test case is described, by it or by a later one.
seen-still :
    (κ ν : EntryKind) (n : Option Text) (k p x : Text) (r : Files)
    → part κ r ≡ some x
    → part κ (seen ν n k p r) ≢ none
unfolding seen
seen-still κ unknown n k p x r e gone = ground arith
seen-still κ input_file none k p x r e gone = ground arith
seen-still κ answer_file none k p x r e gone = ground arith
seen-still κ input_file (some n) k p x r e gone = ground arith
seen-still κ answer_file (some n) k p x r e gone = ground arith

seen-kept :
    (κ ν : EntryKind) (n : Option Text) (k p x : Text) (r : Files)
    → part κ r ≡ some x
    → (y : Text) × (part κ (seen ν n k p r) ≡ some y)
seen-kept κ ν n k p x r e = elim (Option-cases (part κ (seen ν n k p r))) [
  | inl gone ↦ absurd (seen-still κ ν n k p x r e gone)
  | inr found ↦ found
]

files_of-kept :
    (κ : EntryKind) (k x : Text) (ps : List Text) (r : Files)
    → part κ r ≡ some x
    → (y : Text) × (part κ (files_of k ps r) ≡ some y)
unfolding files_of
files_of-kept κ k x [] r e = (x, e)
files_of-kept κ k x (q ∷ ps) r e =
    let (y, now) = seen-kept κ (get_kind q) (strip_extension q) k q x r e in
    files_of-kept κ k y ps _ now

seen-here :
    (κ : EntryKind) (k p : Text) (r : Files) → κ ≢ unknown → part κ (seen κ (some k) k p r) ≡ some p
unfolding seen
seen-here unknown k p r known = absurd (known refl)
seen-here input_file k p r known = rw (text_eq_refl k)
seen-here answer_file k p r known = rw (text_eq_refl k)

files_of-has :
    (κ : EntryKind) (k p : Text) (ps : List Text) (r : Files)
    → κ ≢ unknown
    → Memᴰ p ps
    → get_kind p ≡ κ
    → strip_extension p ≡ some k
    → (y : Text) × (part κ (files_of k ps r) ≡ some y)
unfolding files_of
files_of-has κ k p [] r known h of_kind named = elim h [ ]
files_of-has κ k p (q ∷ ps) r known (Memᴰ.head e) of_kind named = files_of-kept κ k q ps _ (
    rw (ap get_kind (sym e) ∙ of_kind, ap strip_extension (sym e) ∙ named)
      (seen-here κ k q r known))
files_of-has κ k p (q ∷ ps) r known (Memᴰ.tail h) of_kind named =
    files_of-has κ k p ps _ known h of_kind named

-- The two together, from an empty table.
nothing-part : (κ : EntryKind) (p : Text) → part κ nothing ≢ some p
nothing-part unknown p e = ground arith
nothing-part input_file p e = ground arith
nothing-part answer_file p e = ground arith

pub is_described :
    (κ : EntryKind) (k p : Text) (ps : List Text)
    → part κ (files_of k ps nothing) ≡ some p
    → IsFile κ k ps p
is_described κ k p ps e = elim (files_of-part κ k p ps nothing e) [
  | inl f ↦ f
  | inr before ↦ absurd (nothing-part κ p before)
]

pub found :
    (κ : EntryKind) (k : Text) (ps : List Text)
    → κ ≢ unknown
    → HasFile κ k ps
    → (p : Text) × (part κ (files_of k ps nothing) ≡ some p)
found κ k ps known (p, f) = files_of-has κ k p ps nothing known f.there f.of_kind f.named

pub is_found :
    (κ : EntryKind) (k : Text) (ps : List Text)
    → part κ (files_of k ps nothing) ≢ none
    → HasFile κ k ps
is_found κ k ps some_file = elim (Option-cases (part κ (files_of k ps nothing))) [
  | inl gone ↦ absurd (some_file gone)
  | inr (p, e) ↦ (p, is_described κ k p ps e)
]
