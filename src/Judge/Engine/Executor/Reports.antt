-- ===== src/Judge/Engine/Executor/Reports.antt =====
-- What a test case's result is to report: the views of its files, how the judgee ran, and what the
-- checker of the mode said of the output.
use wave_judge.Prelude.{
  ℕ, zero, suc, ◌≡◌, refl, sym, ◌⊎◌, inl, inr, false, Option, if◌then◌else◌, none, subst, some,
  Text, ok,
}
use wave_judge.Sandbox.Usage.{
  ExitStatus, not_exited, normal, killed_by_signal, cpu_time_limit_exceeded,
  real_time_limit_exceeded, memory_limit_exceeded, banned_syscall,
}
use wave_judge.Sandbox.Builder.{Builder, Memento, restore, add_arg}
use wave_judge.Sandbox.Daemon.{Process}
use wave_judge.Judge.Verdicts.{Verdict, is_accepted, TestCaseResult, verdict_of}
use wave_judge.Judge.Checkers.{CheckerResult, TokenCheck}
use wave_judge.Judge.Task.{JudgeMode, standard, special_judge, interactive, TestCaseDescriptor}
use wave_judge.Judge.Engine.{Host, run_process, read_file_view}
use wave_judge.Judge.Engine.Executor.{JudgeContext, data_view_len, run_checker, fd_arg}
use wave_judge.Judge.Engine.Executor.Runs.{Executed, JudgeeRun, JudgeeRan}

module _ {W : Type 0} (host : Host W) (ctx : JudgeContext) (tc : TestCaseDescriptor) where
  -- A view that was read from a file.
  abbrev pub Viewed : Text → Option Text → Type 0
  Viewed file view =
      (text : Text) × (w : W) × (w' : W) × (read_file_view host file data_view_len w
        ≡ some (ok text, w'))
      × (view ≡ some text)

  -- The built-in checker of the context read the answer file and the judgee's output, and the verdict
  -- and the comment are what it said.
  pub record BuiltinSays (verdict : Verdict) (comment : Option Text) (output : ℕ) : Type 0 where
    pub check : TokenCheck
    pub has : ctx.builtin_checker ≡ some check
    pub before : W
    pub answer : ℕ
    pub opened : W
    pub opens : host.open_file tc.answer_file before ≡ (ok answer, opened)
    pub said : CheckerResult
    pub after : W
    pub runs : run_checker host check answer output opened ≡ some (ok said, after)
    pub as_said : verdict ≡ (if said.accepted then Verdict.accepted else Verdict.wrong_answer)
    pub commented : comment ≡ said.comment

  -- The verdict for each end of a jury program: an exit with 0 accepts, with another code rejects, and
  -- every other end is a failure of the checker.
  abbrev pub JurySays : ExitStatus → Verdict → Type 0
  JurySays (normal zero) v = v ≡ Verdict.accepted
  JurySays (normal (suc n)) v = v ≡ Verdict.wrong_answer
  JurySays not_exited v = ⊥
  JurySays (killed_by_signal s) v = v ≡ Verdict.checker_failed
  JurySays cpu_time_limit_exceeded v = v ≡ Verdict.checker_failed
  JurySays real_time_limit_exceeded v = v ≡ Verdict.checker_failed
  JurySays memory_limit_exceeded v = v ≡ Verdict.checker_failed
  JurySays banned_syscall v = v ≡ Verdict.checker_failed

  -- The jury program of the context ran on the input, the answer and the judgee's output, in this
  -- order, and the verdict is for how it ended.
  pub record ProgramSays (verdict : Verdict) (output : ℕ) : Type 0 where
    pub jury : Memento
    pub has : ctx.jury_bdr ≡ some jury
    pub before : W
    pub input : ℕ
    pub opened : W
    pub opens_input : host.open_file tc.input_file before ≡ (ok input, opened)
    pub answer : ℕ
    pub opened' : W
    pub opens_answer : host.open_file tc.answer_file opened ≡ (ok answer, opened')
    pub one : Builder
    pub takes_input : add_arg (fd_arg host input) (restore jury) ≡ ok one
    pub two : Builder
    pub takes_answer : add_arg (fd_arg host answer) one ≡ ok two
    pub three : Builder
    pub takes_output : add_arg (fd_arg host output) two ≡ ok three
    pub writes_to : ℕ
    pub started : W
    pub child : Process
    pub after : W
    pub runs :
        run_process host
          (record three { redirections = record three.redirections { stdout = some writes_to } })
          started
        ≡ some (ok child, after)
    pub as_ended : JurySays child.status verdict

  abbrev pub CheckerSays : JudgeMode → TestCaseResult → ℕ → Type 0
  CheckerSays (standard _) r output = BuiltinSays r.verdict r.comment output
  CheckerSays (special_judge _) r output = ProgramSays r.verdict output
  CheckerSays (interactive _) r output = ⊥

  -- The judgee did not end by itself, and the verdict says how; or it did, and the checker judged its
  -- output.
  abbrev pub Judged : JudgeMode → TestCaseResult → ℕ → Type 0
  Judged mode r output =
      ((verdict_of r.judgee_exit_status ≡ some r.verdict) × (is_accepted r.verdict ≡ false))
      ⊎ ((code : ℕ) × (r.judgee_exit_status ≡ normal code) × CheckerSays mode r output)

  -- The result of a test case in a mode.
  pub record Reported (mode : JudgeMode) (r : TestCaseResult) : Type 0 where
    pub input : Viewed tc.input_file r.input_view
    pub answer : Viewed tc.answer_file r.answer_view
    pub run : JudgeeRun host ctx tc r.judgee_exit_status r.output_view
    pub judged : Judged mode r run.out.fd

  -- A result with its views, after the judgee's run.
  pub record Ready (p : TestCaseResult) (file : Option ℕ) (w : W) : Type 0 where
    pub input : Viewed tc.input_file p.input_view
    pub answer : Viewed tc.answer_file p.answer_view
    pub executed : Executed p p file
    pub ran : JudgeeRan host ctx tc p file w

  pub Executed-Ready :
      (r p : TestCaseResult) (file : Option ℕ) (w : W)
      → Viewed tc.input_file r.input_view
      → Viewed tc.answer_file r.answer_view
      → Executed r p file
      → JudgeeRan host ctx tc p file w
      → Ready p file w
  Executed-Ready r p none w vi va (i, a, o, v, f) ran = record {
    input = rw i vi;
    answer = rw a va;
    executed = (refl, refl, o, v, f);
    ran = ran;
  }
  Executed-Ready r p (some fd) w vi va (i, a, o, c) ran = record {
    input = rw i vi;
    answer = rw a va;
    executed = (refl, refl, o, c);
    ran = ran;
  }

  pub Reported-stopped :
      (mode : JudgeMode) (p : TestCaseResult) (w : W) → Ready p none w → Reported mode p
  Reported-stopped mode p w ready = record {
    input = ready.input;
    answer = ready.answer;
    run = ready.ran.0;
    judged = inl (ready.executed.3, ready.executed.4);
  }

  -- A checker's verdict on a result leaves the rest that matters here.
  pub Reported-judged :
      (mode : JudgeMode) (p : TestCaseResult) (verdict : Verdict) (comment : Option Text) (fd : ℕ)
      (w : W)
      → Ready p (some fd) w
      → CheckerSays mode (record p { comment = comment; verdict = verdict }) fd
      → Reported mode (record p { comment = comment; verdict = verdict })
  Reported-judged mode p verdict comment fd w ready says = record {
    input = ready.input;
    answer = ready.answer;
    run = ready.ran.0;
    judged = inr (
      ready.executed.3.0,
      ready.executed.3.1,
      subst (CheckerSays mode (record p { comment = comment; verdict = verdict }))
          (sym ready.ran.1.0) says,
    );
  }
