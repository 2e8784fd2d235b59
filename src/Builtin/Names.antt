-- ===== src/Builtin/Names.antt =====
-- The functions of `std::path` that the providers call, on any Unix path as its bytes: slashes and
-- components `.` at the end do not count, and a path of `.`, `..` or `/` has no file name.
use wave_judge.Prelude.{
  Option, none, some, [], ◌∷◌, ◌==◌, ◌&&◌, ◌||◌, Text, codes, text_eq, if◌then◌else◌,
}
use wave_judge.Driver.Archives.Paths.{slash, dot, split_last, name_behind, stem_of, with_stem}

reverse_onto : Text → Text → Text
reverse_onto [] done = done
reverse_onto (x ∷ xs) done = reverse_onto xs (x ∷ done)

-- The trailing slashes, and components `.` behind a slash, of a path that is given from its end.
drop_tail : Text → Text
drop_tail [] = []
drop_tail (c ∷ []) = c ∷ []
drop_tail (c ∷ d ∷ rest) =
    let shorter = drop_tail (d ∷ rest) in
    if c == slash || (c == dot && d == slash) then shorter else c ∷ d ∷ rest

unfoldable pub trimmed : Text → Text
unfolding reverse_onto drop_tail
trimmed p = reverse_onto (drop_tail (reverse_onto p [])) []

name_of : Text → Option Text
unfolding text_eq
name_of [] = none
name_of (c ∷ n) =
    if text_eq (c ∷ n) (codes ".") || text_eq (c ∷ n) (codes "..") then none else some (c ∷ n)

-- `Path::file_name`
unfoldable pub file_name : Text → Option Text
unfolding trimmed name_of split_last name_behind
file_name p = name_of (name_behind (trimmed p) (split_last slash (trimmed p)))

-- `Path::file_stem`
unfoldable pub file_stem : Text → Option Text
unfolding file_name stem_of split_last
file_stem p = elim (file_name p) [ none ↦ none | some n ↦ some (stem_of n (split_last dot n)) ]

before_last : Text → Option (Text × Text) → Option Text
unfolding trimmed
before_last [] none = none
before_last (c ∷ p) none = some []
before_last p (some (a, [])) = none
before_last p (some ([], b ∷ bs)) = some (slash ∷ [])
before_last p (some (c ∷ a, b ∷ bs)) = some (trimmed (c ∷ a))

-- `Path::parent`
unfoldable pub parent : Text → Option Text
unfolding trimmed before_last split_last
parent p = before_last (trimmed p) (split_last slash (trimmed p))

-- `PathBuf::set_extension` with an extension that is not empty
unfoldable pub set_extension : Text → Text → Text
unfolding file_stem trimmed with_stem split_last
set_extension ext p = elim (file_stem p) [
  | none ↦ p
  | some stem ↦ with_stem stem ext (split_last slash (trimmed p))
]
