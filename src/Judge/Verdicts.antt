-- ===== src/Judge/Verdicts.antt =====
-- judge/src/lib.rs: verdicts, the results of test cases and how they add up.
pub mod Laws
use wave_judge.Prelude.{
  ℕ, Bool, true, false, Option, none, some, List, [], ◌∷◌, ◌++◌, Text, Result, ok, err, panic,
  if◌then◌else◌,
}
use wave_judge.Sandbox.Usage.{
  Usage, no_usage, update, ExitStatus, not_exited, normal, killed_by_signal,
  cpu_time_limit_exceeded, real_time_limit_exceeded, banned_syscall,
}

pub data Verdict : Type 0 where
  accepted : Verdict
  wrong_answer : Verdict
  runtime_error : Verdict
  time_limit_exceeded : Verdict
  memory_limit_exceeded : Verdict
  idleness_limit_exceeded : Verdict
  banned_system_call : Verdict
  checker_failed : Verdict
  interactor_failed : Verdict

unfoldable pub is_accepted : Verdict → Bool
is_accepted accepted = true
is_accepted _ = false

-- `bitand_assign`, and by it `and` and `bitand`.
infixl 65 ◌&◌
unfoldable pub ◌&◌ : Verdict → Verdict → Verdict
unfolding is_accepted
self & rhs = if is_accepted self then rhs else self

pub record TestCaseResult : Type 0 where
  pub verdict : Verdict
  pub judgee_exit_status : ExitStatus
  pub checker_exit_status : Option ExitStatus
  pub interactor_exit_status : Option ExitStatus
  pub rusage : Usage
  pub comment : Option Text
  pub input_view : Option Text
  pub answer_view : Option Text
  pub output_view : Option Text
  pub error_view : Option Text

-- `TestCaseResult::new`.
abbrev pub new_case : TestCaseResult
new_case = record {
  verdict = accepted;
  judgee_exit_status = not_exited;
  checker_exit_status = none;
  interactor_exit_status = none;
  rusage = no_usage;
  comment = none;
  input_view = none;
  answer_view = none;
  output_view = none;
  error_view = none;
}

-- The `match` of `set_judgee_exit_status`; `none` is its panic.
unfoldable pub verdict_of : ExitStatus → Option Verdict
verdict_of (normal _) = some accepted
verdict_of (killed_by_signal _) = some runtime_error
verdict_of cpu_time_limit_exceeded = some time_limit_exceeded
verdict_of real_time_limit_exceeded = some idleness_limit_exceeded
verdict_of ExitStatus.memory_limit_exceeded = some memory_limit_exceeded
verdict_of banned_syscall = some banned_system_call
verdict_of not_exited = none

unfoldable pub set_judgee_exit_status : ExitStatus → TestCaseResult → Option TestCaseResult
unfolding verdict_of
set_judgee_exit_status status r = elim (verdict_of status) [
  | none ↦ none
  | some v ↦ some (record r { judgee_exit_status = status; verdict = v })
]

pub record JudgeResult : Type 0 where
  pub verdict : Verdict
  pub rusage : Usage
  pub test_suite : List TestCaseResult

-- `JudgeResult::new` and its `Default`.
abbrev pub new_result : JudgeResult
new_result = record { verdict = accepted; rusage = no_usage; test_suite = [] }

unfoldable pub add_test_case_result : JudgeResult → TestCaseResult → JudgeResult
unfolding ◌&◌ update
add_test_case_result res r = record {
  verdict = res.verdict & r.verdict;
  rusage = update res.rusage r.rusage;
  test_suite = res.test_suite ++ r ∷ [];
}

-- A whole test suite, case by case.
unfoldable pub add_all : JudgeResult → List TestCaseResult → JudgeResult
unfolding add_test_case_result
add_all res [] = res
add_all res (r ∷ rs) = add_all (add_test_case_result res r) rs
