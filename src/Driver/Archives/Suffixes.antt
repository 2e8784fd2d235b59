-- ===== src/Driver/Archives/Suffixes.antt =====
-- The parts of a path, and what the operations on its suffix leave of it.
use wave_judge.Prelude.{
  ℕ, Option, none, some, [], ◌∷◌, ◌++◌, Text, ◌≡◌, ◌≢◌, ◌↔◌, refl, sym, ◌∙◌, ap, arith, length,
  length-append, ==_iff,
}
use wave_judge.Driver.Archives.Paths.{
  split_last, cut_before, slash, dot, file_name, name_behind, parent, before_name, file_stem,
  stem_of, extension, extension_of, set_extension, with_stem,
}
use wave_judge.Driver.Archives.{strip_extension, stripped, under}

module _ (sep : ℕ) where
  -- What the split returns: the two sides, the right one without the byte.
  record Halves (t a b : Text) : Type 0 where
    joined : t ≡ a ++ sep ∷ b
    last : split_last sep b ≡ none

  cut_before-Halves :
      (x : ℕ) (t : Text) (o : Option (Text × Text)) (a b : Text)
      → split_last sep t ≡ o
      → ((u v : Text) → o ≡ some (u, v) → Halves t u v)
      → cut_before sep x t o ≡ some (a, b)
      → Halves (x ∷ t) a b
  unfolding cut_before
  cut_before-Halves x t none a b e h q = record {
    joined = ground (arith, ==_iff x sep);
    last = ground arith;
  }
  cut_before-Halves x t (some (u, v)) a b e h q =
      let f = h u v refl in
      record { joined = ground (arith, f.joined); last = ground (arith, f.last) }

  split_last-Halves : (t a b : Text) → split_last sep t ≡ some (a, b) → Halves t a b
  unfolding split_last
  split_last-Halves [] a b q = absurd (ground arith)
  split_last-Halves (x ∷ t) a b q =
      cut_before-Halves x t (split_last sep t) a b refl (split_last-Halves t) q

  split_last-join :
      (a b : Text) → split_last sep b ≡ none → split_last sep (a ++ sep ∷ b) ≡ some (a, b)
  unfolding split_last cut_before
  split_last-join [] b e = rw e (ground (arith, ==_iff sep sep))
  split_last-join (x ∷ a) b e = rw (split_last-join a b e) refl

  pub split_last-left : (a b : Text) → split_last sep (a ++ b) ≡ none → split_last sep a ≡ none
  unfolding split_last cut_before
  split_last-left [] b e = refl
  split_last-left (x ∷ a) b e = ground (arith, split_last-left a b)

-- A path made of its directory part and a name.
abbrev pub joined_path : Option (Text × Text) → Text → Text
joined_path none n = n
joined_path (some (d, m)) n = d ++ slash ∷ n

-- The split at the slashes of a relative path of normal components: no directory is empty.
abbrev IsDir : Option (Text × Text) → Type 0
IsDir none = Unit
IsDir (some (d, m)) = d ≢ []

pub path-parts :
    (p : Text) (o : Option (Text × Text))
    → split_last slash p ≡ o
    → (p ≡ joined_path o (name_behind p o)) × (split_last slash (name_behind p o) ≡ none)
unfolding name_behind
path-parts p none e = (refl, e)
path-parts p (some (d, n)) e = let f = split_last-Halves slash p d n e in (f.joined, f.last)

pub under-before :
    (o : Option (Text × Text)) (s : Text) → IsDir o → under (before_name o) s ≡ joined_path o s
unfolding under before_name
under-before none s h = refl
under-before (some ([], m)) s h = absurd (h refl)
under-before (some (c ∷ d, m)) s h = refl

file_name-eq : (t : Text) → t ≢ [] → file_name t ≡ some (name_behind t (split_last slash t))
unfolding file_name
file_name-eq [] h = absurd (h refl)
file_name-eq (c ∷ t) h = refl

append-proper : (d : Text) (c : ℕ) (s : Text) → d ++ c ∷ s ≢ []
append-proper [] c s h = ground arith
append-proper (x ∷ d) c s h = ground arith

module _ (s : Text) (proper : s ≢ []) (flat : split_last slash s ≡ none) where
  joined-file_name : (o : Option (Text × Text)) → file_name (joined_path o s) ≡ some s
  unfolding name_behind
  joined-file_name none = file_name-eq s proper ∙ ap (λ q. some (name_behind s q)) flat
  joined-file_name (some (d, m)) =
      file_name-eq (d ++ slash ∷ s) (append-proper d slash s)
      ∙ ap (λ q. some (name_behind (d ++ slash ∷ s) q)) (split_last-join slash d s flat)

  -- The extension of the name is replaced, or put behind a name without one.
  set_extension-joined :
      (e : Text) (o : Option (Text × Text))
      → set_extension e (joined_path o s) ≡ joined_path o (stem_of s (split_last dot s) ++ dot ∷ e)
  unfolding with_stem set_extension file_stem
  set_extension-joined e none = rw (joined-file_name none, set_extension, file_stem) (rw flat refl)
  set_extension-joined e (some (d, m)) =
      rw (joined-file_name (some (d, m)), set_extension, file_stem)
        (rw (split_last-join slash d s flat) refl)

  extension-joined :
      (o : Option (Text × Text)) → extension (joined_path o s) ≡ extension_of (split_last dot s)
  unfolding extension extension_of
  extension-joined o = rw (joined-file_name o, extension) refl

stem-same :
    (e s : Text) (o : Option (Text × Text))
    → split_last dot s ≡ o
    → (stem_of s o ++ dot ∷ e ≡ s ++ dot ∷ e) ↔ (extension_of o ≡ none)
unfolding stem_of extension_of
stem-same e s none h = (λ _. refl, λ _. refl)
stem-same e s (some ([], b)) h = (λ _. refl, λ _. refl)
stem-same e s (some (c ∷ a, b)) h = (
  λ q. absurd (
      omega (
        arith,
        ap length q,
        ap length (split_last-Halves dot s (c ∷ a) b h).joined,
        length-append (c ∷ a) (dot ∷ e),
        length-append s (dot ∷ e),
        length-append (c ∷ a) (dot ∷ b),
      )),
  λ u. absurd (ground arith),
)

joined_path-cancel :
    (o : Option (Text × Text)) (a b : Text) → joined_path o a ≡ joined_path o b → a ≡ b
joined_path-cancel none a b h = h
joined_path-cancel (some ([], m)) a b h = ground arith
joined_path-cancel (some (x ∷ d, m)) a b h = joined_path-cancel (some (d, m)) a b (ground arith)

-- The name of a file with an extension: its stem, and the extension behind the last dot.
pub name-parts :
    (n e : Text) (o : Option (Text × Text))
    → split_last dot n ≡ o
    → extension_of o ≡ some e
    → (n ≡ stem_of n o ++ dot ∷ e) × (stem_of n o ≢ [])
unfolding extension_of stem_of
name-parts n e none h q = absurd (ground arith)
name-parts n e (some ([], b)) h q = absurd (ground arith)
name-parts n e (some (c ∷ a, b)) h q =
    (ground (arith, (split_last-Halves dot n (c ∷ a) b h).joined), λ u. ground arith)

pub strip-eq :
    (p n : Text) (o : Option (Text × Text))
    → p ≢ []
    → split_last slash p ≡ o
    → name_behind p o ≡ n
    → strip_extension p ≡ some (under (before_name o) (stem_of n (split_last dot n)))
unfolding strip_extension stripped parent file_stem file_name
strip-eq [] n o h q r = absurd (h refl)
strip-eq (c ∷ p) n o h q r = rw (q) (rw (r) refl)

pub extension-eq :
    (p n : Text) (o : Option (Text × Text))
    → p ≢ []
    → split_last slash p ≡ o
    → name_behind p o ≡ n
    → extension p ≡ extension_of (split_last dot n)
unfolding extension file_name
extension-eq [] n o h q r = absurd (h refl)
extension-eq (c ∷ p) n o h q r = rw (q) (rw (r) refl)

pub IsDir-relative :
    (p : Text) (o : Option (Text × Text))
    → ((t : Text) → p ≢ slash ∷ t)
    → split_last slash p ≡ o
    → IsDir o
IsDir-relative p none h q = tt
IsDir-relative p (some (d, m)) h q =
    λ u. h m ((split_last-Halves slash p d m q).joined ∙ ap (λ x. x ++ slash ∷ m) u)

pub extension-proper : (p e : Text) → extension p ≡ some e → p ≢ []
unfolding extension file_name
extension-proper p e h u = ground arith

-- With the directory, the stem and the extension of the file at hand.
pub reopened-parts :
    (e s : Text) (o : Option (Text × Text))
    → s ≢ []
    → split_last slash s ≡ none
    → (set_extension e (joined_path o s) ≡ joined_path o (s ++ dot ∷ e))
      ↔ (extension (joined_path o s) ≡ none)
reopened-parts e s o proper flat = (
  λ q.
      extension-joined s proper flat o
      ∙ (stem-same e s (split_last dot s) refl).0 (
          joined_path-cancel o (stem_of s (split_last dot s) ++ dot ∷ e) (s ++ dot ∷ e)
            (sym (set_extension-joined s proper flat e o) ∙ q)),
  λ u.
      set_extension-joined s proper flat e o
      ∙ ap (joined_path o)
          ((stem-same e s (split_last dot s) refl).1 (sym (extension-joined s proper flat o) ∙ u)),
)

-- A file with an extension, taken apart.
