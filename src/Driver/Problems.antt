-- ===== src/Driver/Problems.antt =====
-- driver/src/storage/problems.rs: the rows of the problem table, the compilation of jury programs
-- and get. SQLite, the board, the file system and the fork server are a parameter (Store); an i64 is
-- its 64 bits, so that the bitcast of driver/src/utils.rs to a u64 changes nothing.
pub mod Rows
pub mod Store
use wave_judge.Prelude.{
  ℕ, Bool, true, false, Option, none, some, List, [], ◌∷◌, ◌++◌, get_elem?, Text, codes, decimal,
  leb, ◌==◌, Result, ok, err, panic, and_then, if◌then◌else◌,
}
use wave_judge.Prelude.Work.{Work, go_on, give, present}
use wave_judge.Sandbox.Launch.{push_path}
use wave_judge.Judge.Languages.{LanguageIdentifier, ProgramKind, checker, interactor}
use wave_judge.Judge.Task.{CompilationResult}
use wave_judge.Driver.ObjectIds.{ObjectId, from_str, fmt}
use wave_judge.Driver.Entities.{
  LanguageTriple, to_judge_language, BoardMode, standard, special_judge, interactive,
}
use wave_judge.Driver.Archives.Paths.{extension, set_extension}
use wave_judge.Driver.Workers.{ProblemMetadata, has_jury}

pub record ProblemInfo : Type 0 where
  pub id : ObjectId
  pub judge_mode : BoardMode
  pub time_limit : ℕ
  pub memory_limit : ℕ
  pub jury_src : Text
  pub jury_lang : LanguageTriple
  pub archive_id : ObjectId
  pub timestamp : ℕ

-- `sqlite::Value`
pub data Value : Type 0 where
  null : Value
  string : Text → Value
  integer : (bits : ℕ) → Value
  float : Value
  binary : Value

unfoldable pub as_string : Value → Option Text
as_string (string t) = some t
as_string _ = none

unfoldable pub as_integer : Value → Option ℕ
as_integer (integer n) = some n
as_integer _ = none

-- `row[i]`
unfoldable pub column : List Value → ℕ → Result Unit Value
column row i = elim (get_elem? row i) [ none ↦ panic | some v ↦ ok v ]

-- `return None` when a column does not have the type
unfoldable pub required : {A : Type 0} → Option A → Result Unit A
required none = err tt
required (some a) = ok a

unfoldable pub read_id : Value → Result Unit ObjectId
unfolding as_string required and_then from_str
read_id v = and_then (required (as_string v)) from_str

unfoldable pub read_mode : Value → Result Unit BoardMode
unfolding as_integer required and_then
read_mode v = and_then (required (as_integer v)) (λ n.
    if n == 0
    then ok standard
    else if n == 1
    then ok special_judge
    else if n == 2
    then ok interactive
    else err tt)

unfoldable pub read_number : Value → Result Unit ℕ
unfolding as_integer required
read_number v = required (as_integer v)

unfoldable pub read_language : Option Text → Option Text → Option Text → Option LanguageTriple
read_language (some i) (some d) (some v) =
    some (record { identifier = i; dialect = d; version = v })
read_language _ _ _ = none

unfoldable pub read_path : Value → Result Unit (Option Text)
read_path null = ok none
read_path (string t) = ok (some t)
read_path _ = err tt

infixl 5 ◌>>=◌
abbrev ◌>>=◌ : {A B : Type 0} → Result Unit A → (A → Result Unit B) → Result Unit B
m >>= f = and_then m f

-- err is the None of the source, and panic an index out of range
unfoldable pub from_db_row : List Value → Result Unit ProblemMetadata
unfolding column read_id read_mode read_number read_language read_path as_string and_then
from_db_row row = do
  id ← column row 0 >>= read_id
  judge_mode ← column row 1 >>= read_mode
  time_limit ← column row 2 >>= read_number
  memory_limit ← column row 3 >>= read_number
  jury_src ← column row 4
  lang_id ← column row 5
  dialect ← column row 6
  version ← column row 7
  jury_exec_path ← column row 8 >>= read_path
  archive_id ← column row 9 >>= read_id
  timestamp ← column row 10 >>= read_number
  ok (record {
    id = id;
    judge_mode = judge_mode;
    time_limit = time_limit;
    memory_limit = memory_limit;
    jury_src = as_string jury_src;
    jury_lang = read_language (as_string lang_id) (as_string dialect) (as_string version);
    jury_exec_path = jury_exec_path;
    archive_id = archive_id;
    timestamp = timestamp;
  })

-- The literals of the statement of save, in the order of the columns.
unfoldable pub quoted : Text → Text
quoted t = 39 ∷ t ++ 39 ∷ []

unfoldable pub optional : Option Text → Text
unfolding quoted
optional none = codes "NULL"
optional (some t) = quoted t

unfoldable pub mode_number : BoardMode → ℕ
mode_number standard = 0
mode_number special_judge = 1
mode_number interactive = 2

unfoldable pub language_literals : Option LanguageTriple → List Text
unfolding quoted
language_literals none = codes "NULL" ∷ codes "NULL" ∷ codes "NULL" ∷ []
language_literals (some l) = quoted l.identifier ∷ quoted l.dialect ∷ quoted l.version ∷ []

unfoldable pub save_literals : ProblemMetadata → List Text
unfolding quoted optional mode_number language_literals decimal fmt
save_literals p =
    (quoted (fmt p.id)
      ∷ decimal (mode_number p.judge_mode)
      ∷ decimal p.time_limit
      ∷ decimal p.memory_limit
      ∷ optional p.jury_src
      ∷ [])
    ++ language_literals p.jury_lang
    ++ (optional p.jury_exec_path ∷ quoted (fmt p.archive_id) ∷ decimal p.timestamp ∷ [])

-- `From<ProblemInfo>`
unfoldable pub from_info : ProblemInfo → ProblemMetadata
from_info i = record {
  id = i.id;
  judge_mode = i.judge_mode;
  time_limit = i.time_limit;
  memory_limit = i.memory_limit;
  jury_src = elim i.judge_mode [ standard ↦ none | _ ↦ some i.jury_src ];
  jury_lang = elim i.judge_mode [ standard ↦ none | _ ↦ some i.jury_lang ];
  jury_exec_path = none;
  archive_id = i.archive_id;
  timestamp = i.timestamp;
}
