-- ===== src/Driver/Tests/Archives.antt =====
-- A small archive, and a disk in memory.
use wave_judge.Prelude.{
  Bool, false, ◌||◌, none, List, [], ◌∷◌, map, Text, codes, text_eq, text_eq_refl, ok, err,
  if◌then◌else◌, ◌≡◌, ◌↔◌, refl, arith, replicate,
}
use wave_judge.Prelude.Work.{go_on}
use wave_judge.Driver.ObjectIds.{ObjectId}
use wave_judge.Driver.Archives.Paths.{extension, file_name, split_last, parent, file_stem}
use wave_judge.Driver.Archives.{
  ZipFile, TestCaseEntry, Table, get_kind, strip_extension, entry_input_path, try_from, scan,
}
use wave_judge.Driver.Archives.Names.{names}
use wave_judge.Driver.Archives.Reopen.{input_path-strip}
use wave_judge.Driver.Archives.Integrity.{Outcome, try_from-Outcome}
use wave_judge.Driver.Archives.Store.{
  Disk, TestArchiveHandle, get_archive_dir, get_metadata_file_path, extract_archive, new_handle,
  get,
}
use wave_judge.Driver.Archives.Store.Fetch.{Reads, get-fetches}
use wave_judge.Driver.Archives.Store.Kept.{Keeps, extraction_is_final}

abbrev two_files : List ZipFile
two_files =
    record { sanitized_name = codes "s/a.in"; content = codes "1" }
    ∷ record { sanitized_name = codes "s/a.ans"; content = codes "2" }
    ∷ []

abbrev in_order : Table → Table
in_order t = t

try_from-Outcome_example :
    Outcome {E = Text} (names two_files) (try_from in_order (map ok two_files))
try_from-Outcome_example = try_from-Outcome in_order (λ t e. (λ h. h, λ h. h)) two_files

input_path-strip_example :
    (entry_input_path (record { name = codes "s/a.b" }) ≡ codes "s/a.b.in")
    ↔ (extension (codes "s/a.b") ≡ none)
unfolding get_kind strip_extension extension file_name split_last text_eq parent file_stem
input_path-strip_example =
    input_path-strip (codes "s/a.b.in") (codes "s/a.b") (λ t e. ground arith) refl refl

-- the directories made, and the JSON written last
record Memory : Type 0 where
  dirs : List Text
  json_path : Text
  json : List TestCaseEntry

among : Text → List Text → Bool
among d [] = false
among d (x ∷ xs) = text_eq d x || among d xs

abbrev in_memory : Disk Memory Text
in_memory = record {
  exists = λ d w. among d w.dirs;
  create_dir_all = λ d w. (ok tt, record w { dirs = d ∷ w.dirs });
  save = λ p c w. (ok tt, w);
  write_json = λ p m w. (ok tt, record w { json_path = p; json = m });
  read_json = λ p w. (if text_eq p w.json_path then ok w.json else err (codes "ENOENT"), w);
  download = λ id w. (ok (map ok two_files), w);
}

in_memory-Keeps : Keeps in_memory
unfolding among
in_memory-Keeps = record {
  made = λ d w e. ground (arith, text_eq_refl d);
  save_stays = λ d p c w e. e;
  json_stays = λ d p m w e. e;
}

in_memory-Reads : Reads in_memory
in_memory-Reads = record {
  written = λ p m w e. ground (arith, text_eq_refl p);
  unrelated = λ p q c w e. refl;
}

abbrev nothing_yet : Memory
nothing_yet = record { dirs = []; json_path = []; json = [] }

abbrev an_id : ObjectId
an_id = record { raw = replicate 12 7 }

abbrev archives : Text
archives = codes "/archives"

abbrev fetched : TestArchiveHandle
fetched = record {
  dir = get_archive_dir archives an_id;
  metadata = record { name = codes "s/a" } ∷ [];
}

abbrev after_fetch : Memory
after_fetch = record {
  dirs = get_archive_dir archives an_id ∷ [];
  json_path = get_metadata_file_path (get_archive_dir archives an_id);
  json = record { name = codes "s/a" } ∷ [];
}

get-fetches_example :
    (fetched.dir ≡ get_archive_dir archives an_id)
    × (try_from in_order {E = Text} (map ok two_files) ≡ ok fetched.metadata)
unfolding get try_from scan among get_archive_dir go_on extension file_name split_last text_eq
    parent file_stem
get-fetches_example =
    get-fetches in_memory in_memory-Reads in_order (λ t e. (λ h. h, λ h. h)) archives an_id
      nothing_yet after_fetch nothing_yet two_files fetched refl refl refl

extraction_is_final_example :
    get in_memory in_order archives an_id
      (extract_archive in_memory
        (err (codes "bad CRC") ∷ [])
        []
        (get_archive_dir archives an_id)
        nothing_yet).1
    ≡ new_handle in_memory
        (get_archive_dir archives an_id)
        (get_metadata_file_path (get_archive_dir archives an_id))
        (extract_archive in_memory
          (err (codes "bad CRC") ∷ [])
          []
          (get_archive_dir archives an_id)
          nothing_yet).1
extraction_is_final_example =
    extraction_is_final in_memory in_memory-Keeps in_order archives an_id
      (err (codes "bad CRC") ∷ []) [] nothing_yet refl
