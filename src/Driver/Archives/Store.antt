-- ===== src/Driver/Archives/Store.antt =====
-- The store of archives: download, extraction, and the handle of an extracted archive. The file
-- system, the JSON codec, the download and zip are a parameter (`Disk`); `W` is their state and `E`
-- their errors. lock_and_execute runs one thread's action, as Driver.Sync shows.
pub mod Fetch
pub mod Kept
use wave_judge.Prelude.{
  Option, none, some, List, [], ◌∷◌, map, Text, codes, Bool, true, false, if◌then◌else◌, Result, ok,
  err, panic,
}
use wave_judge.Prelude.Work.{Work, go_on, ◌>>=◌, give}
use wave_judge.Sandbox.Launch.{push_path}
use wave_judge.Driver.ObjectIds.{ObjectId, fmt}
use wave_judge.Driver.Archives.{
  ZipFile, ArchiveError, bad_test_archive, foreign, Table, TestCaseEntry, entry_input_path,
  entry_answer_path, try_from,
}

pub record Disk (W E : Type 0) : Type 0 where
  pub exists : Text → W → Bool
  pub create_dir_all : Text → W → Result E Unit × W
  pub save : Text → Text → W → Result E Unit × W  -- File::create and io::copy
  pub write_json : Text → List TestCaseEntry → W → Result E Unit × W  -- File::create and to_writer
  pub read_json : Text → W → Result E (List TestCaseEntry) × W  -- File::open and from_reader
  -- into a temporary file, opened as a ZipArchive
  pub download : ObjectId → W → Result E (List (Result E ZipFile)) × W

pub record TestArchiveHandle : Type 0 where
  pub dir : Text
  pub metadata : List TestCaseEntry

-- what the iterator of a handle yields: paths below the directory of the archive
pub record TestCaseInfo : Type 0 where
  pub handle : TestArchiveHandle
  pub test_case_entry : TestCaseEntry

unfoldable pub test_cases : TestArchiveHandle → List TestCaseInfo
test_cases h = map (λ e. record { handle = h; test_case_entry = e }) h.metadata

unfoldable pub input_file_path : TestCaseInfo → Text
unfolding push_path entry_input_path
input_file_path c = push_path c.handle.dir (entry_input_path c.test_case_entry)

unfoldable pub answer_file_path : TestCaseInfo → Text
unfolding push_path entry_answer_path
answer_file_path c = push_path c.handle.dir (entry_answer_path c.test_case_entry)

-- the conversion of `?` on the error of a call
unfoldable pub called : {W E A : Type 0} → Result E A × W → Result (ArchiveError E) A × W
called (ok a, w) = (ok a, w)
called (err e, w) = (err (foreign e), w)
called (panic, w) = (panic, w)

unfoldable pub get_archive_dir : Text → ObjectId → Text
unfolding push_path fmt
get_archive_dir root id = push_path root (fmt id)

unfoldable pub get_metadata_file_path : Text → Text
unfolding push_path
get_metadata_file_path dir = push_path dir (codes "metadata.json")

module _ {W E : Type 0} (disk : Disk W E) where
  -- one turn of the loop of extract_into
  unfoldable pub extract_entry : Text → Result E ZipFile → Work W (ArchiveError E) Unit
  unfolding called push_path
  extract_entry dir (ok z) w = called (disk.save (push_path dir z.sanitized_name) z.content w)
  extract_entry dir (err e) w = (err (foreign e), w)
  extract_entry dir panic w = (panic, w)

  unfoldable pub extract_into : Text → List (Result E ZipFile) → Work W (ArchiveError E) Unit
  unfolding extract_entry
  extract_into dir [] = give (ok tt)
  extract_into dir (f ∷ rest) = do _ ← extract_entry dir f; extract_into dir rest

  unfoldable pub extract_archive :
      List (Result E ZipFile) → List TestCaseEntry → Text → Work W (ArchiveError E) Unit
  unfolding get_metadata_file_path extract_into called
  extract_archive files metadata dir = do
    _ ← (λ w. called (disk.create_dir_all dir w))
    _ ← (λ w. called (disk.write_json (get_metadata_file_path dir) metadata w))
    extract_into dir files

  unfoldable pub new_handle : Text → Text → Work W (ArchiveError E) TestArchiveHandle
  unfolding called
  new_handle dir path = do
    metadata ← (λ w. called (disk.read_json path w))
    give (ok (record { dir = dir; metadata = metadata }))

  module _ (visit : Table → Table) (root : Text) where
    unfoldable pub download_archive : ObjectId → Text → Work W (ArchiveError E) Unit
    unfolding extract_archive try_from called
    download_archive id dir = do
      files ← (λ w. called (disk.download id w))
      metadata ← give (try_from visit files)
      extract_archive files metadata dir

    unfoldable pub get : ObjectId → Work W (ArchiveError E) TestArchiveHandle
    unfolding get_archive_dir download_archive get_metadata_file_path new_handle
    get id = do
      _ ← (λ w.
          if disk.exists (get_archive_dir root id) w
          then (ok tt, w)
          else download_archive id (get_archive_dir root id) w)
      new_handle (get_archive_dir root id) (get_metadata_file_path (get_archive_dir root id))
