-- ===== src/Driver/Entities.antt =====
-- driver/src/restful/entities.rs: what the driver exchanges with the board, and the conversion of the
-- engine's results. Times in milliseconds and sizes in megabytes come as 64-bit numbers.
pub mod Conversion
use wave_judge.Prelude.{ℕ, ◌/◌, Option, none, some, List, [], ◌∷◌, map, Text}
use wave_judge.Sandbox.Memory.{bytes}
use wave_judge.Sandbox.Usage.{Usage, exit_code}
use wave_judge.Sandbox.Launch.{as_secs}
use wave_judge.Judge.Verdicts.{
  banned_system_call, TestCaseResult, JudgeResult, Verdict as JudgeVerdict,
}
use wave_judge.Judge.Languages.{LanguageIdentifier}
use wave_judge.Driver.ObjectIds.{ObjectId}

pub record LanguageTriple : Type 0 where
  pub identifier : Text
  pub dialect : Text
  pub version : Text

unfoldable pub to_judge_language : LanguageTriple → LanguageIdentifier
to_judge_language t = record {
  language = t.identifier;
  branch = record { dialect = t.dialect; version = t.version };
}

-- The board's `JudgeMode`.
pub data BoardMode : Type 0 where
  standard special_judge interactive : BoardMode

pub record SubmissionInfo : Type 0 where
  pub id : ObjectId
  pub problem_id : ObjectId
  pub source : Text
  pub language : LanguageTriple

-- The board's `Verdict`.
pub data BoardVerdict : Type 0 where
  accepted compilation_failed wrong_answer runtime_error time_limit_exceeded memory_limit_exceeded :
      BoardVerdict
  idleness_limit_exceeded bad_system_call checker_compilation_failed checker_failed : BoardVerdict
  interactor_compilation_failed interactor_failed judge_failed : BoardVerdict

-- `From<judge::Verdict>`.
unfoldable pub from_verdict : JudgeVerdict → BoardVerdict
from_verdict JudgeVerdict.accepted = BoardVerdict.accepted
from_verdict JudgeVerdict.wrong_answer = BoardVerdict.wrong_answer
from_verdict JudgeVerdict.runtime_error = BoardVerdict.runtime_error
from_verdict JudgeVerdict.time_limit_exceeded = BoardVerdict.time_limit_exceeded
from_verdict JudgeVerdict.memory_limit_exceeded = BoardVerdict.memory_limit_exceeded
from_verdict JudgeVerdict.idleness_limit_exceeded = BoardVerdict.idleness_limit_exceeded
from_verdict banned_system_call = bad_system_call
from_verdict JudgeVerdict.checker_failed = BoardVerdict.checker_failed
from_verdict JudgeVerdict.interactor_failed = BoardVerdict.interactor_failed

pub record TestCaseJudgeResult : Type 0 where
  pub verdict : BoardVerdict
  pub time : ℕ
  pub memory : ℕ
  pub exit_code : ℕ
  pub input_view : Text
  pub answer_view : Text
  pub output_view : Text
  pub comment : Text

pub record SubmissionJudgeResult : Type 0 where
  pub verdict : BoardVerdict
  pub compiler_message : Text
  pub time : ℕ
  pub memory : ℕ
  pub test_cases : List TestCaseJudgeResult

-- `unwrap_or_default` on a text and on an exit code.
abbrev pub text_or_empty : Option Text → Text
text_or_empty none = []
text_or_empty (some t) = t

abbrev pub code_or_zero : Option ℕ → ℕ
code_or_zero none = 0
code_or_zero (some code) = code

-- `From<judge::TestCaseResult>`.
unfoldable pub from_case : TestCaseResult → TestCaseJudgeResult
unfolding from_verdict exit_code bytes
from_case res = record {
  verdict = from_verdict res.verdict;
  time = as_secs res.rusage.user_cpu_time;
  memory = bytes res.rusage.virtual_mem_size;
  exit_code = code_or_zero (exit_code res.judgee_exit_status);
  input_view = text_or_empty res.input_view;
  answer_view = text_or_empty res.answer_view;
  output_view = text_or_empty res.output_view;
  comment = text_or_empty res.comment;
}

-- `From<judge::JudgeResult>`.
unfoldable pub from_result : JudgeResult → SubmissionJudgeResult
unfolding from_verdict from_case bytes
from_result res = record {
  verdict = from_verdict res.verdict;
  compiler_message = [];
  time = as_secs res.rusage.user_cpu_time;
  memory = bytes res.rusage.virtual_mem_size;
  test_cases = map from_case res.test_suite;
}
