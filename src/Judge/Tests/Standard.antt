-- ===== src/Judge/Tests/Standard.antt =====
-- A standard task on the small machine, from its files to the verdict.
use wave_judge.Prelude.{◌≡◌, refl, some, codes, text_eq, ok}
use wave_judge.Sandbox.Usage.{normal}
use wave_judge.Sandbox.Daemon.{
  daemon_main, attach, wait_for_exit, guard_wait, wait_result, after_sample, after_wait, on_wait,
  round, settle, finish,
}
use wave_judge.Sandbox.Builder.{new, memento, restore}
use wave_judge.Sandbox.Launch.{start_parent}
use wave_judge.Judge.Verdicts.{
  Verdict, is_accepted, TestCaseResult, new_case, set_judgee_exit_status, verdict_of, JudgeResult,
  new_result, add_test_case_result,
}
use wave_judge.Judge.Verdicts.Laws.{first_failure}
use wave_judge.Judge.Tokens.{device_read, new as new_reader}
use wave_judge.Judge.Tokens.Utf8.{is_utf8}
use wave_judge.Judge.Checkers.{get_checker, default, default_check, all_right}
use wave_judge.Judge.Engine.{continue, run_process, waited, read_file_view}
use wave_judge.Judge.Engine.Executor.{
  JudgeContext, before, execute_judgee, keep_output, run_checker, check_output, judge_std, by_mode,
  execute_case, execute_cases, execute,
}
use wave_judge.Judge.Engine.Judging.{prepare, judge}
use wave_judge.Judge.Engine.Judging.Compared.{Pairwise, CaseJudged}
use wave_judge.Judge.Engine.Judging.Standard.{judge-Standard}
use wave_judge.Judge.Tests.Tokens.{numbers}
use wave_judge.Judge.Tests.Machine.{ending, machine, readable}
use wave_judge.Judge.Tests.Providers.{manager, config, standard_task, standard_context, prepared}

-- The judgee prints what the answer has.
abbrev accepted_case : TestCaseResult
accepted_case = record new_case {
  verdict = Verdict.accepted;
  judgee_exit_status = normal 0;
  comment = some (all_right 2);
  input_view = some (codes "1 2");
  answer_view = some (codes "1 2");
  output_view = some (codes "1 2");
}

standard-runs :
    execute machine standard_context tt
    ≡ some (ok (add_test_case_result new_result accepted_case), tt)
unfolding execute execute_cases execute_case before read_file_view device_read continue by_mode
    judge_std execute_judgee restore memento new run_process start_parent waited wait_for_exit
    attach daemon_main round guard_wait on_wait wait_result after_wait after_sample settle finish
    set_judgee_exit_status verdict_of is_accepted keep_output check_output run_checker get_checker
    default_check text_eq ending new_reader is_utf8
standard-runs = refl

abbrev accepted_task : JudgeResult
accepted_task = add_test_case_result new_result accepted_case

standard-judged :
    judge numbers machine manager config standard_task tt ≡ some (ok accepted_task, tt)
unfolding judge continue
standard-judged = rw prepared standard-runs

judge-Standard_example :
    (ctx : JudgeContext) × (w₁ : Unit) × (prepare numbers machine manager config standard_task tt
      ≡ some (ok ctx, w₁))
    × Pairwise
        (CaseJudged machine (get_checker numbers default) ctx)
        standard_task.test_suite
        accepted_task.test_suite
    × (accepted_task.verdict ≡ first_failure accepted_task.test_suite)
judge-Standard_example =
    judge-Standard numbers machine manager config default standard_task accepted_task tt tt
      (λ fd v. readable fd) refl standard-judged
