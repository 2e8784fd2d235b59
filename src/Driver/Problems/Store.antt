-- ===== src/Driver/Problems/Store.antt =====
-- The problem store: get with the compilation of a jury program. `Sources` is what it calls: queries
-- of the table, the insertion of a row by its literals, the board, the fork server, and the copy of
-- a file. lock_and_execute runs one thread's action, as Driver.Sync shows.
pub mod Latest
use wave_judge.Prelude.{
  ℕ, Bool, true, false, Option, none, some, List, [], ◌∷◌, Text, leb, Result, ok, err, panic,
  if◌then◌else◌,
}
use wave_judge.Prelude.Work.{Work, go_on, ◌>>=◌, give, present}
use wave_judge.Sandbox.Launch.{push_path}
use wave_judge.Judge.Languages.{LanguageIdentifier, ProgramKind, checker, interactor}
use wave_judge.Judge.Task.{CompilationResult}
use wave_judge.Driver.ObjectIds.{ObjectId, fmt}
use wave_judge.Driver.Entities.{
  LanguageTriple, to_judge_language, BoardMode, standard, special_judge, interactive,
}
use wave_judge.Driver.Archives.Paths.{extension, set_extension}
use wave_judge.Driver.Workers.{ProblemMetadata, has_jury}
use wave_judge.Driver.Problems.{
  Value, as_integer, ProblemInfo, from_info, from_db_row, save_literals,
}

pub record Sources (W E : Type 0) : Type 0 where
  pub query_timestamp : ObjectId → W → Result E (Option Value) × W  -- the first row's column
  pub query_row : ObjectId → W → Result E (Option (List Value)) × W
  pub insert : List Text → W → Result E Unit × W
  pub problem_timestamp : ObjectId → W → Result E ℕ × W
  pub problem_info : ObjectId → W → Result E ProblemInfo × W
  pub compile_source : Text → LanguageIdentifier → ProgramKind → W → Result E CompilationResult × W
  pub copy : Text → Text → W → Result E Unit × W

unfoldable pub timestamp_of : Option Value → Option ℕ
unfolding as_integer
timestamp_of none = none
timestamp_of (some v) = as_integer v

-- the Option of from_db_row
unfoldable pub decoded :
    {E : Type 0} → Result Unit ProblemMetadata → Result E (Option ProblemMetadata)
decoded (ok p) = ok (some p)
decoded (err _) = ok none
decoded panic = panic

unfoldable pub cached_row : {E : Type 0} → Option (List Value) → Result E (Option ProblemMetadata)
unfolding from_db_row decoded
cached_row none = ok none
cached_row (some row) = decoded (from_db_row row)

-- the last steps of compile_jury
unfoldable pub jury_output : {E : Type 0} → CompilationResult → Result E (Option Text)
jury_output r =
    if r.succeeded
    then elim r.compiler_out [
      | none ↦ ok none
      | some _ ↦ elim r.output_file [ none ↦ panic | some file ↦ ok (some file) ]
    ]
    else ok none

-- `unreachable!` is a panic
unfoldable pub jury_kind : {E : Type 0} → BoardMode → Result E ProgramKind
jury_kind standard = panic
jury_kind special_judge = ok checker
jury_kind interactive = ok interactor

-- {problemId}.{extension} in the jury directory
unfoldable pub jury_path : Text → ObjectId → Option Text → Text
unfolding push_path fmt set_extension
jury_path jury_dir id none = push_path jury_dir (fmt id)
jury_path jury_dir id (some ext) = set_extension ext (push_path jury_dir (fmt id))

module _ {W E : Type 0} (sources : Sources W E) (jury_dir : Text) where
  unfoldable pub get_timestamp : ObjectId → Work W E (Option ℕ)
  unfolding timestamp_of
  get_timestamp id = do v ← sources.query_timestamp id; give (ok (timestamp_of v))

  unfoldable pub get_cached : ObjectId → Work W E (Option ProblemMetadata)
  unfolding cached_row
  get_cached id = do row ← sources.query_row id; give (cached_row row)

  unfoldable pub compile_jury : Text → LanguageTriple → BoardMode → Work W E (Option Text)
  unfolding jury_kind jury_output to_judge_language
  compile_jury src lang mode = do
    kind ← give (jury_kind mode)
    result ← sources.compile_source src (to_judge_language lang) kind
    give (jury_output result)

  -- the copy into the jury directory
  unfoldable pub place_jury : ProblemMetadata → ObjectId → Option Text → Work W E ProblemMetadata
  unfolding jury_path extension
  place_jury p id none = give (ok p)
  place_jury p id (some temp) = do
    _ ← sources.copy temp (jury_path jury_dir id (extension temp))
    give (ok (record p { jury_exec_path = some (jury_path jury_dir id (extension temp)) }))

  unfoldable pub with_jury : ObjectId → ProblemMetadata → Work W E ProblemMetadata
  unfolding compile_jury place_jury
  with_jury id p = do
    src ← present p.jury_src
    lang ← present p.jury_lang
    temp ← compile_jury src lang p.judge_mode
    place_jury p id temp

  -- from the request for the problem on
  unfoldable pub refresh : ObjectId → Work W E ProblemMetadata
  unfolding from_info has_jury with_jury save_literals
  refresh id = do
    info ← sources.problem_info id
    p ← (λ w.
        if has_jury (from_info info)
        then with_jury id (from_info info) w
        else (ok (from_info info), w))
    _ ← sources.insert (save_literals p)
    give (ok p)

  unfoldable pub unless_cached : ObjectId → Option ProblemMetadata → Work W E ProblemMetadata
  unfolding refresh
  unless_cached id none = refresh id
  unless_cached id (some p) = give (ok p)

  unfoldable pub unless_newest : ObjectId → Option ℕ → Work W E ProblemMetadata
  unfolding refresh get_cached unless_cached
  unless_newest id none = refresh id
  unless_newest id (some timestamp) = do
    remote ← sources.problem_timestamp id
    if leb remote timestamp then get_cached id >>= unless_cached id else refresh id

  unfoldable pub get : ObjectId → Work W E ProblemMetadata
  unfolding get_timestamp unless_newest
  get id = do timestamp ← get_timestamp id; unless_newest id timestamp
