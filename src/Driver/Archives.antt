-- ===== src/Driver/Archives.antt =====
-- driver/src/storage/archives.rs: the files of a test archive, its metadata and the store of
-- archives. The crate zip is a parameter as far as it reads an archive; what its reader yields is a
-- list of results. A `HashMap` is an association list that is visited in an order left open.
pub mod Paths
pub mod Suffixes
pub mod Reopen
pub mod Names
pub mod Described
pub mod Integrity
pub mod Store
use wave_judge.Prelude.{
  ℕ, Option, none, some, List, [], ◌∷◌, ◌++◌, Text, codes, Bool, true, false, text_eq, Result, ok,
  err, panic, unwrap, and_then, if◌then◌else◌, map,
}
use wave_judge.Driver.Archives.Paths.{slash, file_stem, parent, extension, set_extension}

pub data Corruption : Type 0 where
  missing_input_file : Text → Corruption
  missing_answer_file : Text → Corruption
  unknown_entry : Text → Corruption

abbrev pub input_file_extension : Text
input_file_extension = codes "in"

abbrev pub answer_file_extension : Text
answer_file_extension = codes "ans"

pub data EntryKind : Type 0 where
  unknown : EntryKind
  input_file : EntryKind
  answer_file : EntryKind

-- a file of the archive, with the name that zip has sanitized
pub record ZipFile : Type 0 where
  pub sanitized_name : Text
  pub content : Text

abbrev pub is_extension : Text → Option Text → Bool
is_extension ext none = false
is_extension ext (some e) = text_eq e ext

unfoldable pub get_kind : Text → EntryKind
get_kind name =
    if is_extension input_file_extension (extension name)
    then input_file
    else if is_extension answer_file_extension (extension name)
    then answer_file
    else unknown

pub under : Text → Text → Text
under [] stem = stem
under (c ∷ dir) stem = (c ∷ dir) ++ slash ∷ stem

stripped : Option Text → Option Text → Option Text
unfolding under
stripped none stem = stem
stripped (some dir) none = none
stripped (some dir) (some stem) = some (under dir stem)

-- none is the panic of the unwrap
unfoldable pub strip_extension : Text → Option Text
unfolding stripped
strip_extension p = stripped (parent p) (file_stem p)

pub record TestCaseEntry : Type 0 where
  pub name : Text

unfoldable pub entry_input_path : TestCaseEntry → Text
entry_input_path e = set_extension input_file_extension e.name

unfoldable pub entry_answer_path : TestCaseEntry → Text
entry_answer_path e = set_extension answer_file_extension e.name

-- what the builder knows of a test case
pub record Files : Type 0 where
  pub input : Option Text
  pub answer : Option Text

abbrev pub Table : Type 0
Table = List (Text × Files)

unfoldable pub lookup : Text → Table → Option Files
lookup k [] = none
lookup k ((n, r) ∷ rest) = if text_eq k n then some r else lookup k rest

-- `get_mut` and an update of the record that is there, else `insert`
unfoldable pub upsert : (Files → Files) → Files → Text → Table → Table
upsert f fresh k [] = (k, fresh) ∷ []
upsert f fresh k ((n, r) ∷ rest) =
    if text_eq k n then (n, f r) ∷ rest else (n, r) ∷ upsert f fresh k rest

inserted : (Files → Files) → Files → Option Text → Table → Option Table
inserted f fresh none t = none
inserted f fresh (some k) t = some (upsert f fresh k t)

unfoldable pub add_input_file : Text → Table → Option Table
unfolding inserted strip_extension upsert
add_input_file p =
    inserted (λ r. record r { input = some p }) (record { input = some p; answer = none })
      (strip_extension p)

unfoldable pub add_answer_file : Text → Table → Option Table
unfolding inserted strip_extension upsert
add_answer_file p =
    inserted (λ r. record r { answer = some p }) (record { input = none; answer = some p })
      (strip_extension p)

pub data ArchiveError (E : Type 0) : Type 0 where
  bad_test_archive : Corruption → ArchiveError E
  foreign : E → ArchiveError E  -- of zip, the file system, the JSON reader or the board

-- one turn of the loop of ensure_test_cases_integrity; a record of nothing is its `unreachable!`
unfoldable pub check_files : {E : Type 0} → Option Text → Option Text → Result (ArchiveError E) Unit
check_files (some i) (some a) = ok tt
check_files (some i) none = err (bad_test_archive (missing_answer_file i))
check_files none (some a) = err (bad_test_archive (missing_input_file a))
check_files none none = panic

unfoldable pub ensure_integrity : {E : Type 0} → Table → Result (ArchiveError E) Unit
unfolding check_files and_then
ensure_integrity [] = ok tt
ensure_integrity ((k, r) ∷ rest) =
    and_then (check_files r.input r.answer) (λ _. ensure_integrity rest)

-- one turn of the loop of try_from
unfoldable pub scan_name : {E : Type 0} → EntryKind → Text → Table → Result (ArchiveError E) Table
unfolding add_input_file add_answer_file
scan_name unknown p t = err (bad_test_archive (unknown_entry p))
scan_name input_file p t = unwrap (add_input_file p t)
scan_name answer_file p t = unwrap (add_answer_file p t)

unfoldable pub scan_entry : {E : Type 0} → Result E ZipFile → Table → Result (ArchiveError E) Table
unfolding scan_name get_kind
scan_entry (err e) t = err (foreign e)
scan_entry panic t = panic
scan_entry (ok z) t = scan_name (get_kind z.sanitized_name) z.sanitized_name t

unfoldable pub scan : {E : Type 0} → List (Result E ZipFile) → Table → Result (ArchiveError E) Table
unfolding scan_entry and_then
scan [] t = ok t
scan (f ∷ rest) t = and_then (scan_entry f t) (scan rest)

-- `visit` is the order of a `HashMap`.
module _ (visit : Table → Table) where
  unfoldable pub get_metadata : {E : Type 0} → Table → Result (ArchiveError E) (List TestCaseEntry)
  unfolding ensure_integrity and_then
  get_metadata t =
      and_then (ensure_integrity (visit t)) (λ _. ok (map (λ e. record { name = e.0 }) (visit t)))

  unfoldable pub try_from :
      {E : Type 0} → List (Result E ZipFile) → Result (ArchiveError E) (List TestCaseEntry)
  unfolding scan get_metadata and_then
  try_from archive = and_then (scan archive []) get_metadata
