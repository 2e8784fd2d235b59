-- ===== src/Driver/Archives/Reopen.antt =====
-- From a file of an archive to the name of its test case, and back to a path.
use wave_judge.Prelude.{
  Option, none, some, [], ◌∷◌, ◌++◌, Text, Option-cases, ◌≡◌, ◌≢◌, ◌↔◌, refl, sym, subst,
  text_eq_sound, ◌∙◌, ap, arith, inl, inr,
}
use wave_judge.Driver.Archives.Paths.{
  split_last, slash, dot, name_behind, stem_of, extension, set_extension,
}
use wave_judge.Driver.Archives.{
  input_file, answer_file, input_file_extension, answer_file_extension, get_kind, strip_extension,
  entry_input_path, entry_answer_path,
}
use wave_judge.Driver.Archives.Suffixes.{
  split_last-left, joined_path, path-parts, under-before, name-parts, strip-eq, extension-eq,
  IsDir-relative, extension-proper, reopened-parts,
}

record Parts (p e k : Text) : Type 0 where
  dir : Option (Text × Text)
  stem : Text
  proper : stem ≢ []
  flat : split_last slash stem ≡ none
  file : p ≡ joined_path dir (stem ++ dot ∷ e)
  test_case : k ≡ joined_path dir stem

parts :
    (p e k : Text)
    → ((t : Text) → p ≢ slash ∷ t)
    → extension p ≡ some e
    → strip_extension p ≡ some k
    → Parts p e k
parts p e k relative ext strip = record {
  dir = o;
  stem = stem_of n q;
  proper = whole.1;
  flat =
      split_last-left slash (stem_of n q) (dot ∷ e)
        (subst (λ x. split_last slash x ≡ none) whole.0 path.1);
  file = path.0 ∙ ap (joined_path o) whole.0;
  test_case =
      ground (arith, strip-eq p n o some_path refl refl)
      ∙ under-before o (stem_of n q) (IsDir-relative p o relative refl);
}
  where
    some_path : p ≢ []
    some_path = extension-proper p e ext

    o : Option (Text × Text)
    o = split_last slash p

    n : Text
    n = name_behind p o

    q : Option (Text × Text)
    q = split_last dot n

    path : (p ≡ joined_path o n) × (split_last slash n ≡ none)
    path = path-parts p o refl

    whole : (n ≡ stem_of n q ++ dot ∷ e) × (stem_of n q ≢ [])
    whole = name-parts n e q refl (sym (extension-eq p n o some_path refl refl) ∙ ext)

reopened :
    (p e k : Text)
    → ((t : Text) → p ≢ slash ∷ t)
    → extension p ≡ some e
    → strip_extension p ≡ some k
    → (set_extension e k ≡ p) ↔ (extension k ≡ none)
reopened p e k relative ext strip =
    rw (f.file, f.test_case) (reopened-parts e f.stem f.dir f.proper f.flat)
  where
    f : Parts p e k
    f = parts p e k relative ext strip

kind-extension :
    (p : Text)
    → ((get_kind p ≡ input_file) → extension p ≡ some input_file_extension)
      × ((get_kind p ≡ answer_file) → extension p ≡ some answer_file_extension)
unfolding get_kind
kind-extension p = elim (Option-cases (extension p)) [
  | inl gone ↦ (λ h. ground arith, λ h. ground arith)
  | inr (x, e) ↦ (
    λ h. ground (arith, text_eq_sound x input_file_extension),
    λ h.
        ground (arith, text_eq_sound x input_file_extension, text_eq_sound x answer_file_extension),
  )
]

-- The path that a test case has for its input file is the file that gave the test case its name,
-- exactly when the name has no extension of its own, for a relative path of the archive.
pub input_path-strip :
    (p k : Text)
    → ((t : Text) → p ≢ slash ∷ t)
    → get_kind p ≡ input_file
    → strip_extension p ≡ some k
    → (entry_input_path (record { name = k }) ≡ p) ↔ (extension k ≡ none)
unfolding entry_input_path
input_path-strip p k relative kind strip =
    reopened p input_file_extension k relative ((kind-extension p).0 kind) strip

-- The same for the answer file.
pub answer_path-strip :
    (p k : Text)
    → ((t : Text) → p ≢ slash ∷ t)
    → get_kind p ≡ answer_file
    → strip_extension p ≡ some k
    → (entry_answer_path (record { name = k }) ≡ p) ↔ (extension k ≡ none)
unfolding entry_answer_path
answer_path-strip p k relative kind strip =
    reopened p answer_file_extension k relative ((kind-extension p).1 kind) strip
