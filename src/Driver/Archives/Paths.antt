-- ===== src/Driver/Archives/Paths.antt =====
-- The functions of `std::path` on the paths that the archives hold, as bytes: those of normal
-- components with one slash between two of them, which is what `sanitized_name` returns.
use wave_judge.Prelude.{ℕ, Option, none, some, [], ◌∷◌, ◌++◌, ◌==◌, Text, if◌then◌else◌}

unfoldable pub cut_before : ℕ → ℕ → Text → Option (Text × Text) → Option (Text × Text)
cut_before sep x xs (some (a, b)) = some (x ∷ a, b)
cut_before sep x xs none = if x == sep then some ([], xs) else none

-- `rsplitn(2)` at a byte: what stands before and behind its last occurrence
unfoldable pub split_last : ℕ → Text → Option (Text × Text)
unfolding cut_before
split_last sep [] = none
split_last sep (x ∷ xs) = cut_before sep x xs (split_last sep xs)

abbrev pub slash : ℕ
slash = 47

abbrev pub dot : ℕ
dot = 46

unfoldable pub name_behind : Text → Option (Text × Text) → Text
name_behind p none = p
name_behind p (some (a, b)) = b

-- `Path::file_name`; the empty path has none
unfoldable pub file_name : Text → Option Text
unfolding name_behind
file_name [] = none
file_name (c ∷ p) = some (name_behind (c ∷ p) (split_last slash (c ∷ p)))

unfoldable pub before_name : Option (Text × Text) → Text
before_name none = []
before_name (some ([], b)) = slash ∷ []
before_name (some (c ∷ a, b)) = c ∷ a

-- `Path::parent`
unfoldable pub parent : Text → Option Text
unfolding before_name
parent [] = none
parent (c ∷ p) = some (before_name (split_last slash (c ∷ p)))

unfoldable pub stem_of : Text → Option (Text × Text) → Text
stem_of n none = n
stem_of n (some ([], b)) = n
stem_of n (some (c ∷ a, b)) = c ∷ a

unfoldable pub extension_of : Option (Text × Text) → Option Text
extension_of none = none
extension_of (some ([], b)) = none
extension_of (some (c ∷ a, b)) = some b

-- `Path::file_stem` and `Path::extension`: a dot at the start of the name opens no extension
unfoldable pub file_stem : Text → Option Text
unfolding stem_of
file_stem p = elim (file_name p) [ none ↦ none | some n ↦ some (stem_of n (split_last dot n)) ]

unfoldable pub extension : Text → Option Text
unfolding extension_of
extension p = elim (file_name p) [ none ↦ none | some n ↦ extension_of (split_last dot n) ]

unfoldable pub with_stem : Text → Text → Option (Text × Text) → Text
with_stem stem ext none = stem ++ dot ∷ ext
with_stem stem ext (some (a, b)) = a ++ slash ∷ (stem ++ dot ∷ ext)

-- `PathBuf::set_extension` with an extension that is not empty
unfoldable pub set_extension : Text → Text → Text
unfolding with_stem
set_extension ext p = elim (file_stem p) [
  | none ↦ p
  | some stem ↦ with_stem stem ext (split_last slash p)
]
