-- ===== src/Judge/Engine/Executor/Cases.antt =====
-- The result of `execute_case` (judge/src/engine/mod.rs), in the terms of Reports.antt.
use wave_judge.Prelude.{
  ℕ, zero, suc, ◌≡◌, refl, sym, Option, if◌then◌else◌, none, subst, some, Text, ok,
}
use wave_judge.Sandbox.Usage.{
  ExitStatus, not_exited, normal, killed_by_signal, cpu_time_limit_exceeded,
  real_time_limit_exceeded, memory_limit_exceeded, banned_syscall,
}
use wave_judge.Sandbox.Builder.{Builder, Memento}
use wave_judge.Sandbox.Daemon.{Process}
use wave_judge.Judge.Verdicts.{Verdict, TestCaseResult, new_case}
use wave_judge.Judge.Languages.{Program}
use wave_judge.Judge.Checkers.{BuiltinCheckers, CheckerResult, TokenCheck}
use wave_judge.Judge.Task.{JudgeMode, standard, special_judge, interactive, TestCaseDescriptor}
use wave_judge.Judge.Engine.{Host, pure}
use wave_judge.Judge.Engine.Steps.{continue-ok, must-ok, io_call-ok, from_sandbox-ok}
use wave_judge.Judge.Engine.Executor.{
  JudgeContext, execute_case, before, judge_std, judge_spj, judge_interactive, run_checker, checked,
  check_output, run_special_checker, checker_verdict, by_mode, by_exit_code, judged,
}
use wave_judge.Judge.Engine.Executor.Runs.{execute_judgee-Executed, execute_judgee-JudgeeRan}
use wave_judge.Judge.Engine.Executor.Reports.{
  Viewed, BuiltinSays, ProgramSays, JurySays, Reported, Ready, Executed-Ready, Reported-stopped,
  Reported-judged,
}

module _ {W : Type 0} (host : Host W) (ctx : JudgeContext) (tc : TestCaseDescriptor) where
  checked-Reported :
      (c : BuiltinCheckers) (p q : TestCaseResult) (res : CheckerResult) (fd : ℕ) (w v w' : W)
      → Ready host ctx tc p (some fd) w
      → BuiltinSays host ctx tc
          (if res.accepted then Verdict.accepted else Verdict.wrong_answer)
          res.comment
          fd
      → pure (checked host res p) v ≡ some (ok q, w')
      → Reported host ctx tc (standard c) q
  checked-Reported c p q res fd w v w' ready says h =
      let made : checked host res p ≡ q = cc h in
      subst (Reported host ctx tc (standard c)) made (
        Reported-judged host ctx tc (standard c) p
          (if res.accepted then Verdict.accepted else Verdict.wrong_answer) res.comment fd w ready
          says)

  check_output-Reported :
      (c : BuiltinCheckers) (p q : TestCaseResult) (file : Option ℕ) (w w' : W)
      → Ready host ctx tc p file w
      → check_output host ctx tc p file w ≡ some (ok q, w')
      → Reported host ctx tc (standard c) q
  unfolding check_output
  check_output-Reported c p q none w w' ready h =
      subst (Reported host ctx tc (standard c)) (cc)
        (Reported-stopped host ctx tc (standard c) p w ready)
  check_output-Reported c p q (some fd) w w' ready h =
      let (input, w₁, _, h₁) = continue-ok _ _ h in
      let (answer, w₂, opens, h₂) = continue-ok _ _ h₁ in
      let (check, w₃, must, h₃) = continue-ok {A = TokenCheck} _ _ h₂ in
      let (res, w₄, runs, h₄) = continue-ok {A = CheckerResult} _ _ h₃ in
      let (has, same) = must-ok ctx.builtin_checker w₂ must in
      checked-Reported c p q res fd w w₄ w' ready
        (record {
          check = check;
          has = has;
          before = w₁;
          answer = answer;
          opened = w₂;
          opens = io_call-ok (host.open_file tc.answer_file) w₁ opens;
          said = res;
          after = w₄;
          runs =
              subst (λ v. run_checker host check answer fd v ≡ some (ok res, w₄)) (sym same) runs;
          as_said = refl;
          commented = refl;
        })
        h₄

  by_exit_code-JurySays : (code : ℕ) → JurySays host ctx tc (normal code) (by_exit_code host code)
  by_exit_code-JurySays zero = refl
  by_exit_code-JurySays (suc n) = refl

  failed :
      (p q : TestCaseResult) (comment : Text) (w w' : W)
      → pure (judged host Verdict.checker_failed comment p) w ≡ some (ok q, w')
      → (verdict : Verdict) × (said : Option Text) × (verdict ≡ Verdict.checker_failed)
        × (record p { comment = said; verdict = verdict } ≡ q)
  failed p q comment w w' h = (Verdict.checker_failed, some comment, refl, cc h)

  -- What the jury's end makes of the result: another verdict and comment.
  checker_verdict-JurySays :
      (p q : TestCaseResult) (comment_read : ℕ) (status : ExitStatus) (w w' : W)
      → checker_verdict host comment_read p status w ≡ some (ok q, w')
      → (verdict : Verdict) × (comment : Option Text) × JurySays host ctx tc status verdict
        × (record p { comment = comment; verdict = verdict } ≡ q)
  unfolding checker_verdict
  checker_verdict-JurySays p q cr (normal code) w w' h =
      let (comment, w₁, _, done) = continue-ok {A = Text} _ _ h in
      (by_exit_code host code, some comment, by_exit_code-JurySays code, cc done)
  checker_verdict-JurySays p q cr not_exited w w' h = cc
  checker_verdict-JurySays p q cr (killed_by_signal s) w w' h = failed p q _ w w' h
  checker_verdict-JurySays p q cr cpu_time_limit_exceeded w w' h = failed p q _ w w' h
  checker_verdict-JurySays p q cr real_time_limit_exceeded w w' h = failed p q _ w w' h
  checker_verdict-JurySays p q cr memory_limit_exceeded w w' h = failed p q _ w w' h
  checker_verdict-JurySays p q cr banned_syscall w w' h = failed p q _ w w' h

  ended-Reported :
      (program : Program) (p q : TestCaseResult) (fd : ℕ) (w : W) (verdict : Verdict)
      (comment : Option Text)
      → Ready host ctx tc p (some fd) w
      → record p { comment = comment; verdict = verdict } ≡ q
      → ProgramSays host ctx tc verdict fd
      → Reported host ctx tc (special_judge program) q
  ended-Reported program p q fd w verdict comment ready made says =
      subst (Reported host ctx tc (special_judge program)) made
        (Reported-judged host ctx tc (special_judge program) p verdict comment fd w ready says)

  run_special_checker-Reported :
      (program : Program) (p q : TestCaseResult) (file : Option ℕ) (w w' : W)
      → Ready host ctx tc p file w
      → run_special_checker host ctx tc p file w ≡ some (ok q, w')
      → Reported host ctx tc (special_judge program) q
  unfolding run_special_checker
  run_special_checker-Reported program p q none w w' ready h =
      subst (Reported host ctx tc (special_judge program)) (cc)
        (Reported-stopped host ctx tc (special_judge program) p w ready)
  run_special_checker-Reported program p q (some fd) w w' ready h =
      let (jury, w₁, must, h₁) = continue-ok {A = Memento} _ _ h in
      let (input, w₂, opens_input, h₂) = continue-ok _ _ h₁ in
      let (answer, w₃, opens_answer, h₃) = continue-ok _ _ h₂ in
      let (b₁, w₄, one, h₄) = continue-ok {A = Builder} _ _ h₃ in
      let (b₂, w₅, two, h₅) = continue-ok {A = Builder} _ _ h₄ in
      let (b₃, w₆, three, h₆) = continue-ok {A = Builder} _ _ h₅ in
      let (ends, w₇, _, h₇) = continue-ok {A = ℕ × ℕ} _ _ h₆ in
      let (child, w₈, runs, h₈) = continue-ok {A = Process} _ _ h₇ in
      let (verdict, comment, ended, made) =
        checker_verdict-JurySays p q ends.0 child.status w₈ w' h₈ in
      ended-Reported program p q fd w verdict comment ready made (record {
        jury = jury;
        has = (must-ok ctx.jury_bdr w must).0;
        before = w₁;
        input = input;
        opened = w₂;
        opens_input = io_call-ok (host.open_file tc.input_file) w₁ opens_input;
        answer = answer;
        opened' = w₃;
        opens_answer = io_call-ok (host.open_file tc.answer_file) w₂ opens_answer;
        one = b₁;
        takes_input = from_sandbox-ok _ w₃ one;
        two = b₂;
        takes_answer = from_sandbox-ok _ w₄ two;
        three = b₃;
        takes_output = from_sandbox-ok _ w₅ three;
        writes_to = ends.1;
        started = w₇;
        child = child;
        after = w₈;
        runs = runs;
        as_ended = ended;
      })

  by_mode-Reported :
      (mode : JudgeMode) (r q : TestCaseResult) (w w' : W)
      → Viewed host ctx tc tc.input_file r.input_view
      → Viewed host ctx tc tc.answer_file r.answer_view
      → by_mode host mode ctx tc r w ≡ some (ok q, w')
      → Reported host ctx tc mode q
  unfolding by_mode judge_std judge_spj judge_interactive
  by_mode-Reported (standard c) r q w w' vi va h =
      let (ran, w₁, run, more) = continue-ok {A = TestCaseResult × Option ℕ} _ _ h in
      check_output-Reported c ran.0 q ran.1 w₁ w'
        (Executed-Ready host ctx tc r ran.0 ran.1 w₁ vi va
          (execute_judgee-Executed host ctx tc r ran.0 ran.1 w w₁ run)
          (execute_judgee-JudgeeRan host ctx tc r ran.0 ran.1 w w₁ run))
        more
  by_mode-Reported (special_judge program) r q w w' vi va h =
      let (ran, w₁, run, more) = continue-ok {A = TestCaseResult × Option ℕ} _ _ h in
      run_special_checker-Reported program ran.0 q ran.1 w₁ w'
        (Executed-Ready host ctx tc r ran.0 ran.1 w₁ vi va
          (execute_judgee-Executed host ctx tc r ran.0 ran.1 w w₁ run)
          (execute_judgee-JudgeeRan host ctx tc r ran.0 ran.1 w w₁ run))
        more
  by_mode-Reported (interactive program) r q w w' vi va h = cc

  -- A test case that is executed to its end has the views of its input and answer files, and the view
  -- of the file that the judgee wrote to, in a run on the input file. Its verdict is how the judgee was
  -- stopped, which is not `Accepted`, or, when the judgee exited by itself, that of the mode's checker
  -- on that file: what the built-in checker of the context said of it against the answer, or the one
  -- for the end of the jury program that ran on the input, the answer and it, where an exit with 0 is
  -- `Accepted`, another exit `WrongAnswer`, and any other end `CheckerFailed`.
  pub execute_case-Reported :
      (q : TestCaseResult) (w w' : W)
      → execute_case host ctx tc w ≡ some (ok q, w')
      → Reported host ctx tc ctx.task.mode q
  unfolding execute_case before
  execute_case-Reported q w w' h =
      let (r, w₁, viewed, more) = continue-ok {A = TestCaseResult} _ _ h in
      let (input_view, w₂, reads_input, h₂) = continue-ok {A = Text} _ _ viewed in
      let (answer_view, w₃, reads_answer, h₃) = continue-ok {A = Text} _ _ h₂ in
      let made : record new_case { input_view = some input_view; answer_view = some answer_view }
          ≡ r =
        cc h₃ in
      by_mode-Reported ctx.task.mode r q w₁ w'
        (subst (λ x. Viewed host ctx tc tc.input_file x.input_view) made
          (input_view, w, w₂, reads_input, refl))
        (subst (λ x. Viewed host ctx tc tc.answer_file x.answer_view) made
          (answer_view, w₂, w₃, reads_answer, refl))
        more
