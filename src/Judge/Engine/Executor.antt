-- ===== src/Judge/Engine/Executor.antt =====
-- judge/src/engine/mod.rs: the execution of a test suite (`JudgeContext::execute`) and of a test case
-- (`JudgeEngineExecutor`). The result of a test case is passed from step to step.
pub mod Suite
pub mod Runs
pub mod Outputs
pub mod Reports
pub mod Cases
use wave_judge.Prelude.{
  ℕ, zero, suc, ◌+◌, Bool, true, false, Option, none, some, List, [], ◌∷◌, ◌++◌, Text, codes,
  decimal, length, Result, ok, err, panic, if◌then◌else◌,
}
use wave_judge.Sandbox.Usage.{
  ExitStatus, not_exited, normal, killed_by_signal, cpu_time_limit_exceeded,
  real_time_limit_exceeded, memory_limit_exceeded, banned_syscall,
}
use wave_judge.Sandbox.Builder.{Builder, Memento, add_arg, restore}
use wave_judge.Judge.Verdicts.{
  Verdict, is_accepted, TestCaseResult, new_case, set_judgee_exit_status, JudgeResult, new_result,
  add_test_case_result,
}
use wave_judge.Judge.Tokens.{Block, new}
use wave_judge.Judge.Tokens.Bytes.{content as bytes_of}
use wave_judge.Judge.Checkers.{CheckerResult, TokenCheck, builtin_checker_exec, quoted}
use wave_judge.Judge.Task.{
  JudgeError, io, JudgeMode, standard, special_judge, interactive, TestCaseDescriptor,
  JudgeTaskDescriptor,
}
use wave_judge.Judge.Engine.{
  Host, TempFile, Judge, ◌>>=◌, ◌>>◌, continue, pure, lift, must, io_call, sandbox_call,
  from_sandbox, run_process, read_file_view,
}

pub record JudgeContext : Type 0 where
  pub task : JudgeTaskDescriptor
  pub judge_dir : Text
  pub judgee_bdr : Memento
  pub builtin_checker : Option TokenCheck
  pub jury_bdr : Option Memento

abbrev pub data_view_len : ℕ
data_view_len = 200

module _ {W : Type 0} (host : Host W) where
  -- `before`: the views of the input and the answer.
  unfoldable pub before : TestCaseDescriptor → TestCaseResult → Judge W TestCaseResult
  unfolding read_file_view
  before tc r = do
    input_view ← read_file_view host tc.input_file data_view_len
    answer_view ← read_file_view host tc.answer_file data_view_len
    pure (record r { input_view = some input_view; answer_view = some answer_view })

  -- The end of `execute_judgee`: an accepted run gives its output, from the start.
  unfoldable pub keep_output :
      TempFile → Bool → TestCaseResult → Judge W (TestCaseResult × Option ℕ)
  keep_output out true r = do io_call (host.seek_start out.fd); pure (r, some out.fd)
  keep_output out false r = pure (r, none)

  unfoldable pub execute_judgee :
      JudgeContext → TestCaseDescriptor → TestCaseResult → Judge W (TestCaseResult × Option ℕ)
  unfolding restore run_process read_file_view set_judgee_exit_status is_accepted keep_output
  execute_judgee ctx tc r = do
    input ← io_call (host.open_file tc.input_file)
    out ← io_call (host.temp_file ctx.judge_dir)
    stdout ← io_call (host.dup out.fd)
    stderr ← sandbox_call host.open_null
    p ← run_process host (record (restore ctx.judgee_bdr) {
      redirections = record { stdin = some input; stdout = some stdout; stderr = some stderr };
    })
    io_call (host.seek_start out.fd)
    output_view ← read_file_view host out.path data_view_len
    r' ← must (set_judgee_exit_status p.status (record r { output_view = some output_view }))
    keep_output out (is_accepted r'.verdict) r'

  -- A built-in checker on two open files; the fuel covers every byte of them.
  unfoldable pub run_checker : TokenCheck → ℕ → ℕ → Judge W CheckerResult
  unfolding builtin_checker_exec
  run_checker check answer output w =
      elim (builtin_checker_exec
        (suc
          (length (bytes_of (host.content answer w)) + length (bytes_of (host.content output w))))
        check 0 (new (host.content answer w)) (new (host.content output w))) [
          | none ↦ none
          | some (ok r) ↦ some (ok r, w)
          | some (err e) ↦ some (err (io e), w)
          | some panic ↦ some (panic, w)
        ]

  abbrev pub checked : CheckerResult → TestCaseResult → TestCaseResult
  checked res r = record r {
    comment = res.comment;
    verdict = if res.accepted then Verdict.accepted else Verdict.wrong_answer;
  }

  unfoldable pub check_output :
      JudgeContext → TestCaseDescriptor → TestCaseResult → Option ℕ → Judge W TestCaseResult
  unfolding run_checker
  check_output ctx tc r none = pure r
  check_output ctx tc r (some output) = do
    input ← io_call (host.open_file tc.input_file)
    answer ← io_call (host.open_file tc.answer_file)
    checker ← must ctx.builtin_checker
    res ← run_checker checker answer output
    pure (checked res r)

  unfoldable pub judge_std :
      JudgeContext → TestCaseDescriptor → TestCaseResult → Judge W TestCaseResult
  unfolding execute_judgee check_output
  judge_std ctx tc r = do (r', output) ← execute_judgee ctx tc r; check_output ctx tc r' output

  -- `format!("\"{}\"", fd)`.
  abbrev pub fd_arg : ℕ → Text
  fd_arg fd = quoted (decimal fd)

  abbrev pub judged : Verdict → Text → TestCaseResult → TestCaseResult
  judged verdict comment r = record r { verdict = verdict; comment = some comment }

  abbrev pub by_exit_code : ℕ → Verdict
  by_exit_code zero = Verdict.accepted
  by_exit_code (suc n) = Verdict.wrong_answer

  -- The `match` of `judge_spj` on the checker's exit status.
  unfoldable pub checker_verdict : ℕ → TestCaseResult → ExitStatus → Judge W TestCaseResult
  checker_verdict comment_read r (normal code) = do
    comment ← io_call (host.read_to_string comment_read)
    pure (judged (by_exit_code code) comment r)
  checker_verdict comment_read r (killed_by_signal sig) =
      pure (judged Verdict.checker_failed (codes "checker killed by signal: " ++ decimal sig) r)
  checker_verdict comment_read r cpu_time_limit_exceeded =
      pure (judged Verdict.checker_failed (codes "checker CPU time limit exceeded") r)
  checker_verdict comment_read r memory_limit_exceeded =
      pure (judged Verdict.checker_failed (codes "checker memory limit exceeded") r)
  checker_verdict comment_read r real_time_limit_exceeded =
      pure (judged Verdict.checker_failed (codes "checker real time limit exceeded") r)
  checker_verdict comment_read r banned_syscall =
      pure (judged Verdict.checker_failed (codes "checker invokes banned system call") r)
  checker_verdict comment_read r not_exited = lift panic

  unfoldable pub run_special_checker :
      JudgeContext → TestCaseDescriptor → TestCaseResult → Option ℕ → Judge W TestCaseResult
  unfolding restore add_arg run_process checker_verdict
  run_special_checker ctx tc r none = pure r
  run_special_checker ctx tc r (some output) = do
    jury ← must ctx.jury_bdr
    input ← io_call (host.open_file tc.input_file)
    answer ← io_call (host.open_file tc.answer_file)
    b₁ ← from_sandbox (add_arg (fd_arg input) (restore jury))
    b₂ ← from_sandbox (add_arg (fd_arg answer) b₁)
    b₃ ← from_sandbox (add_arg (fd_arg output) b₂)
    ends ← io_call host.pipe
    p ←
        run_process host
          (record b₃ { redirections = record b₃.redirections { stdout = some ends.1 } })
    checker_verdict ends.0 r p.status

  unfoldable pub judge_spj :
      JudgeContext → TestCaseDescriptor → TestCaseResult → Judge W TestCaseResult
  unfolding execute_judgee run_special_checker
  judge_spj ctx tc r = do
    (r', output) ← execute_judgee ctx tc r
    run_special_checker ctx tc r' output

  -- `judge_interactive` is `unimplemented!()`.
  unfoldable pub judge_interactive :
      JudgeContext → TestCaseDescriptor → TestCaseResult → Judge W TestCaseResult
  judge_interactive ctx tc r = lift panic

  unfoldable pub by_mode :
      JudgeMode → JudgeContext → TestCaseDescriptor → TestCaseResult → Judge W TestCaseResult
  unfolding judge_std judge_spj judge_interactive
  by_mode (standard _) = judge_std
  by_mode (special_judge _) = judge_spj
  by_mode (interactive _) = judge_interactive

  unfoldable pub execute_case : JudgeContext → TestCaseDescriptor → Judge W TestCaseResult
  unfolding before by_mode
  execute_case ctx tc = do r ← before tc new_case; by_mode ctx.task.mode ctx tc r

  -- The loop of `execute`, on the result so far; `after` does nothing.
  unfoldable pub execute_cases :
      JudgeContext → List TestCaseDescriptor → JudgeResult → Judge W JudgeResult
  unfolding execute_case add_test_case_result
  execute_cases ctx [] res = pure res
  execute_cases ctx (tc ∷ tcs) res = do
    r ← execute_case ctx tc
    execute_cases ctx tcs (add_test_case_result res r)

  unfoldable pub execute : JudgeContext → Judge W JudgeResult
  unfolding execute_cases
  execute ctx = execute_cases ctx ctx.task.test_suite new_result
