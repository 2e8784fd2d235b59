-- ===== src/Driver/Workers.antt =====
-- driver/src/workers.rs: how a submission is handled, with what it uses of driver/src/forkserver/mod.rs
-- (commands) and driver/src/storage/problems.rs (`ProblemMetadata`). The stores, the fork server and
-- the board are a parameter (`Services`).
pub mod Submissions
pub mod Threads
use wave_judge.Prelude.{
  ℕ, zero, suc, ◌*◌, ◌%◌, ◌^◌, Bool, true, false, not, ◌&&◌, Option, none, some, List, [], ◌∷◌,
  Text, codes, Result, ok, err, panic, if◌then◌else◌,
}
use wave_judge.Prelude.Work.{Work, go_on, ◌>>=◌, ◌>>◌, give, present}
use wave_judge.Sandbox.Memory.{Duration, mega_bytes}
use wave_judge.Judge.Verdicts.{JudgeResult}
use wave_judge.Judge.Languages.{LanguageIdentifier, Program, ProgramKind, judgee}
use wave_judge.Judge.Checkers.{default}
use wave_judge.Judge.Task.{
  CompilationTaskDescriptor, CompilationResult, JudgeMode, ResourceLimits, TestCaseDescriptor,
  JudgeTaskDescriptor, task_of,
}
use wave_judge.Driver.ObjectIds.{ObjectId}
use wave_judge.Driver.Entities.{
  LanguageTriple, to_judge_language, BoardMode, standard, special_judge, interactive,
  SubmissionInfo, BoardVerdict, judge_failed, compilation_failed, SubmissionJudgeResult,
  text_or_empty, from_result,
}

pub record ProblemMetadata : Type 0 where
  pub id : ObjectId
  pub judge_mode : BoardMode
  pub time_limit : ℕ
  pub memory_limit : ℕ
  pub jury_src : Option Text
  pub jury_lang : Option LanguageTriple
  pub jury_exec_path : Option Text
  pub archive_id : ObjectId
  pub timestamp : ℕ

unfoldable pub has_jury : ProblemMetadata → Bool
has_jury p = elim p.judge_mode [ standard ↦ false | _ ↦ true ]

unfoldable pub jury_compile_succeeded : ProblemMetadata → Bool
jury_compile_succeeded p = elim p.jury_exec_path [ none ↦ false | some _ ↦ true ]

-- `SubmissionJudgeResult::failure` and `compilation_failed`.
unfoldable pub failure : Text → SubmissionJudgeResult
failure message = record {
  verdict = judge_failed;
  compiler_message = message;
  time = 0;
  memory = 0;
  test_cases = [];
}

unfoldable pub compilation_failure : Text → SubmissionJudgeResult
unfolding failure
compilation_failure message = record (failure message) { verdict = compilation_failed }

-- `Command` and `CommandResult` of the fork server.
pub data Command : Type 0 where
  compile : CompilationTaskDescriptor → Command
  judge : JudgeTaskDescriptor → Command

pub data CommandResult : Type 0 where
  compiled : CompilationResult → CommandResult
  judged : JudgeResult → CommandResult

unfoldable pub unwrap_as_judge_result : {E : Type 0} → CommandResult → Result E JudgeResult
unwrap_as_judge_result (judged r) = ok r
unwrap_as_judge_result (compiled r) = panic

-- What a worker calls: the stores, and the fork server, whose `compile_source` writes the source to a
-- file and sends a compilation. `W` is their state and `E` their errors.
pub record Services (W E : Type 0) : Type 0 where
  pub problem : ObjectId → W → Result E ProblemMetadata × W
  pub archive : ObjectId → W → Result E (List TestCaseDescriptor) × W
  pub compile_source : Text → LanguageIdentifier → ProgramKind → W → Result E CompilationResult × W
  pub execute_cmd : Command → W → Result E CommandResult × W

-- `Duration::from_millis`.
abbrev pub from_millis : ℕ → Duration
from_millis ms = ms * 1000000

-- The limits of a task: three times the CPU time in real time, multiplied as a `u64`.
unfoldable pub limits_of : ProblemMetadata → ResourceLimits
limits_of p = record {
  cpu_time_limit = from_millis p.time_limit;
  real_time_limit = from_millis (p.time_limit * 3 % 2 ^ 64);
  memory_limit = mega_bytes p.memory_limit;
}

module _ {W E : Type 0} (services : Services W E) where
  jury_program : ProblemMetadata → Work W E Program
  unfolding to_judge_language
  jury_program p = do
    lang ← present p.jury_lang
    exec ← present p.jury_exec_path
    give (ok (record { file = exec; language = to_judge_language lang }))

  -- The mode of the task.
  mode_of : ProblemMetadata → BoardMode → Work W E JudgeMode
  unfolding jury_program
  mode_of p standard = give (ok (JudgeMode.standard default))
  mode_of p special_judge = do jury ← jury_program p; give (ok (JudgeMode.special_judge jury))
  mode_of p interactive = do jury ← jury_program p; give (ok (JudgeMode.interactive jury))

  -- What follows a compilation that succeeded.
  unfoldable pub judge_submission :
      SubmissionInfo
      → ProblemMetadata
      → List TestCaseDescriptor
      → CompilationResult
      → Work W E SubmissionJudgeResult
  unfolding to_judge_language limits_of mode_of unwrap_as_judge_result from_result
  judge_submission submission p test_cases result = do
    exec_path ← present result.compiler_out
    mode ← mode_of p p.judge_mode
    answer ← services.execute_cmd (
        judge (record {
          program = record { file = exec_path; language = to_judge_language submission.language };
          mode = mode;
          limits = limits_of p;
          test_suite = test_cases;
        }))
    judge_result ← give (unwrap_as_judge_result answer)
    give (ok (from_result judge_result))

  unfoldable pub after_compilation :
      SubmissionInfo
      → ProblemMetadata
      → List TestCaseDescriptor
      → CompilationResult
      → Work W E SubmissionJudgeResult
  unfolding judge_submission compilation_failure
  after_compilation submission p test_cases result =
      if not result.succeeded
      then give (ok (compilation_failure (text_or_empty result.compiler_out)))
      else judge_submission submission p test_cases result

  unfoldable pub compile_submission :
      SubmissionInfo → ProblemMetadata → List TestCaseDescriptor → Work W E SubmissionJudgeResult
  unfolding after_compilation to_judge_language
  compile_submission submission p test_cases = do
    result ←
        services.compile_source submission.source (to_judge_language submission.language) judgee
    after_compilation submission p test_cases result

  unfoldable pub handle_submission : SubmissionInfo → Work W E SubmissionJudgeResult
  unfolding has_jury jury_compile_succeeded failure compile_submission
  handle_submission submission = do
    p ← services.problem submission.problem_id
    test_cases ← services.archive p.archive_id
    if has_jury p && not (jury_compile_succeeded p)
        then give (ok (failure (codes "Answer checker did not compiled successfully.")))
        else compile_submission submission p test_cases

unfoldable pub patched : {W E : Type 0} → Result E Unit × W → Work W E Bool → Result E Bool × W
patched (ok u, w) again = (ok true, w)
patched (err e, w) again = again w
patched (panic, w) again = (panic, w)

-- The loop that sends a result to the board: `retry_count` is what is left of it, and `true` says that
-- the result has arrived.
unfoldable pub patch_result : {W E : Type 0} → Work W E Unit → ℕ → Work W E Bool
unfolding patched
patch_result patch zero w = (ok false, w)
patch_result patch (suc retry_count) w = patched (patch w) (patch_result patch retry_count)
