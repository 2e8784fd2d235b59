-- ===== src/Judge/Tests/Machine.antt =====
-- A small machine, and tasks that the engine runs on it.
use wave_judge.Prelude.{
  ℕ, ◌≡◌, ◌↔◌, refl, true, none, some, List, [], ◌∷◌, Text, codes, contains, text_eq, ok, arith,
  if◌then◌else◌, decimal, digits_of,
}
use wave_judge.Sandbox.Usage.{no_usage, normal}
use wave_judge.Sandbox.Daemon.{
  exited, Round, daemon_main, attach, wait_for_exit, guard_wait, wait_result, after_sample,
  after_wait, on_wait, round, settle, finish,
}
use wave_judge.Sandbox.Builder.{Builder, new, add_arg, memento, restore, is_valid_c_string}
use wave_judge.Sandbox.Launch.{start_parent}
use wave_judge.Judge.Verdicts.{
  wrong_answer, is_accepted, TestCaseResult, new_case, set_judgee_exit_status, verdict_of,
  new_result, add_test_case_result,
}
use wave_judge.Judge.Languages.{LanguageIdentifier, Program}
use wave_judge.Judge.Tokens.{block, device_read}
use wave_judge.Judge.Task.{special_judge, TestCaseDescriptor, JudgeTaskDescriptor, task_of}
use wave_judge.Judge.Engine.{Host, continue, run_process, waited, read_file_view}
use wave_judge.Judge.Engine.Executor.{
  JudgeContext, before, execute_judgee, keep_output, run_checker, run_special_checker,
  checker_verdict, judge_spj, by_mode, execute_case, execute_cases, execute,
}
use wave_judge.Judge.Engine.Executor.Suite.{InTurn, execute-Summarises}
use wave_judge.Judge.Engine.Executor.Outputs.{Readable, run_checker-Agree}
use wave_judge.Judge.Checkers.{CheckerResult, case_insensitive_check}
use wave_judge.Judge.Checkers.Standard.{Agree}
use wave_judge.Judge.Tokens.Bytes.{content}
use wave_judge.Judge.Tokens.Words.{tokens}
use wave_judge.Judge.Tokens.Utf8.{is_utf8, valid_from, advance, lead, continuation, ends}
use wave_judge.Judge.Verdicts.Laws.{Summarises}
use wave_judge.Judge.Engine.Executor.Reports.{Reported}
use wave_judge.Judge.Engine.Executor.Cases.{execute_case-Reported}

abbrev pub checker_file : Text
checker_file = codes "/jury/check"

-- The judgee exits with 0 and the checker with 1.
unfoldable pub ending : Builder → List Round
ending b =
    record {
      wait = ok (exited (if text_eq b.file checker_file then 1 else 0));
      sample = ok no_usage;
      elapsed = some 0;
    }
    ∷ []

-- A machine without state: every file holds "1 2".
abbrev pub machine : Host Unit
machine = record {
  open_file = λ path w. (ok 3, w);
  open_null = λ w. (ok 6, w);
  content = λ fd w. block (codes "1 2") ∷ [];
  temp_file = λ dir w. (ok (record { path = codes "/tmp/out"; fd = 4 }), w);
  temp_dir = λ parent w. (ok (codes "/tmp/j"), w);
  dup = λ fd w. (ok 5, w);
  seek_start = λ fd w. (ok tt, w);
  pipe = λ w. (ok (7, 8), w);
  read_to_string = λ fd w. (ok (codes "no"), w);
  spawn = λ b w. (ok (ending b), w);
  vars = [];
  lossy = λ t. t;
}

abbrev pub python : LanguageIdentifier
python = record {
  language = codes "python";
  branch = record { dialect = codes "cpython"; version = codes "3" };
}

abbrev pub checker_program : Program
checker_program = record { file = checker_file; language = python }

abbrev pub solution : Program
solution = record { file = codes "/tmp/a.py"; language = python }

abbrev pub case_1 : TestCaseDescriptor
case_1 = record { input_file = codes "1.in"; answer_file = codes "1.ans" }

abbrev spj_task : JudgeTaskDescriptor
spj_task = record (task_of solution) {
  mode = special_judge checker_program;
  test_suite = case_1 ∷ [];
}

abbrev spj_context : JudgeContext
spj_context = record {
  task = spj_task;
  judge_dir = codes "/tmp/j";
  judgee_bdr = memento (new (codes "/usr/bin/python3"));
  builtin_checker = none;
  jury_bdr = some (memento (new checker_file));
}

-- The checker rejects the output of the judgee.
abbrev rejected_case : TestCaseResult
rejected_case = record new_case {
  verdict = wrong_answer;
  judgee_exit_status = normal 0;
  comment = some (codes "no");
  input_view = some (codes "1 2");
  answer_view = some (codes "1 2");
  output_view = some (codes "1 2");
}

spj-rejects : execute_case machine spj_context case_1 tt ≡ some (ok rejected_case, tt)
unfolding execute_case before read_file_view device_read continue by_mode judge_spj execute_judgee
    restore memento new run_process start_parent waited wait_for_exit attach daemon_main round
    guard_wait on_wait wait_result after_wait after_sample settle finish set_judgee_exit_status
    verdict_of is_accepted keep_output run_special_checker add_arg is_valid_c_string contains
    checker_verdict ending text_eq decimal digits_of
spj-rejects = refl

execute_case-Reported_example :
    Reported machine spj_context case_1 (special_judge checker_program) rejected_case
execute_case-Reported_example =
    execute_case-Reported machine spj_context case_1 rejected_case tt tt spj-rejects

spj-suite :
    execute machine spj_context tt ≡ some (ok (add_test_case_result new_result rejected_case), tt)
unfolding execute execute_cases continue
spj-suite = rw spj-rejects refl

execute-Summarises_example :
    InTurn machine spj_context spj_task.test_suite
      (add_test_case_result new_result rejected_case).test_suite
      tt
      tt
    × Summarises
        (add_test_case_result new_result rejected_case)
        (add_test_case_result new_result rejected_case).test_suite
execute-Summarises_example =
    execute-Summarises machine spj_context (add_test_case_result new_result rejected_case) tt tt
      spj-suite

pub readable : (fd : ℕ) → Readable machine fd tt
unfolding tokens is_utf8 valid_from advance lead continuation ends
readable fd = record { blocks = (omega arith, tt); utf8 = (refl, (refl, tt)) }

run_checker-Agree_example :
    (res : CheckerResult) × (run_checker machine case_insensitive_check 3 4 tt ≡ some (ok res, tt))
    × ((res.accepted ≡ true)
        ↔ Agree case_insensitive_check
            (tokens (content (block (codes "1 2") ∷ [])))
            (tokens (content (block (codes "1 2") ∷ []))))
run_checker-Agree_example =
    run_checker-Agree machine case_insensitive_check 3 4 tt (readable 3) (readable 4)
