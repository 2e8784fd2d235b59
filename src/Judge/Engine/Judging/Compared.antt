-- ===== src/Judge/Engine/Judging/Compared.antt =====
-- The execution of a standard task's test suite: what each verdict comes from.
use wave_judge.Prelude.{
  ℕ, ◌≡◌, ◌↔◌, ◌⊎◌, refl, sym, subst, inl, inr, Bool, true, false, if◌then◌else◌, Option, none,
  some, List, [], ◌∷◌, Result, ok,
}
use wave_judge.Sandbox.Usage.{normal}
use wave_judge.Judge.Verdicts.{Verdict, is_accepted, TestCaseResult, verdict_of, JudgeResult}
use wave_judge.Judge.Verdicts.Laws.{first_failure}
use wave_judge.Judge.Tokens.Words.{tokens}
use wave_judge.Judge.Tokens.Bytes.{content}
use wave_judge.Judge.Checkers.{BuiltinCheckers, CheckerResult, TokenCheck}
use wave_judge.Judge.Checkers.Standard.{Agree}
use wave_judge.Judge.Task.{
  JudgeError, JudgeMode, standard, special_judge, interactive, TestCaseDescriptor,
}
use wave_judge.Judge.Engine.{Host, pure}
use wave_judge.Judge.Engine.Steps.{continue-ok, must-ok, io_call-ok}
use wave_judge.Judge.Engine.Executor.{
  JudgeContext, execute_judgee, run_checker, checked, check_output, judge_std, by_mode,
  execute_case, execute,
}
use wave_judge.Judge.Engine.Executor.Runs.{
  JudgeeRun, execute_judgee-Executed, execute_judgee-JudgeeRan,
}
use wave_judge.Judge.Engine.Executor.Suite.{InTurn, execute-Summarises}
use wave_judge.Judge.Engine.Executor.Outputs.{Readable, run_checker-Agree}

-- Two lists of one length, item by item.
abbrev pub Pairwise : {A B : Type 0} → (A → B → Type 0) → List A → List B → Type 0
Pairwise P [] [] = Unit
Pairwise P (a ∷ as_) (b ∷ bs) = P a b × Pairwise P as_ bs
Pairwise P _ _ = ⊥

module _ {W : Type 0} (host : Host W) (check : TokenCheck) (ctx : JudgeContext) where
  -- The judgee exited, and the tokens of the file that it wrote to were compared, from the start of
  -- the file, with those of the answer file when that was opened.
  pub record Compared (tc : TestCaseDescriptor) (r : TestCaseResult)
      (run : JudgeeRun host ctx tc r.judgee_exit_status r.output_view) : Type 0 where
    pub exit_code : ℕ
    pub exited : r.judgee_exit_status ≡ normal exit_code
    pub finished : W
    pub sought : host.seek_start run.out.fd run.viewed ≡ (ok tt, finished)
    pub input : ℕ
    pub reopened : W
    pub reopens : host.open_file tc.input_file finished ≡ (ok input, reopened)
    pub answer : ℕ
    pub opened : W
    pub opens : host.open_file tc.answer_file reopened ≡ (ok answer, opened)
    pub accepts :
        (r.verdict ≡ Verdict.accepted)
        ↔ Agree check
            (tokens (content (host.content answer opened)))
            (tokens (content (host.content run.out.fd opened)))
    pub either : (r.verdict ≡ Verdict.accepted) ⊎ (r.verdict ≡ Verdict.wrong_answer)

  -- The judgee was run on the input, and it was stopped, and the verdict says how; or its output was
  -- compared.
  abbrev pub CaseJudged : TestCaseDescriptor → TestCaseResult → Type 0
  CaseJudged tc r =
      (run : JudgeeRun host ctx tc r.judgee_exit_status r.output_view) × (((verdict_of
              r.judgee_exit_status
            ≡ some r.verdict)
          × (is_accepted r.verdict ≡ false))
        ⊎ Compared tc r run)

  some_injective : {A : Type 0} {o : Option A} {a b : A} → o ≡ some a → o ≡ some b → a ≡ b
  some_injective h k = cc

  by_check :
      (b : Bool)
      → ((if b then Verdict.accepted else Verdict.wrong_answer) ≡ Verdict.accepted) ↔ (b ≡ true)
  by_check true = (λ _. refl, λ _. refl)
  by_check false = (λ h. cc, λ h. cc)

  one_of :
      (b : Bool)
      → ((if b then Verdict.accepted else Verdict.wrong_answer) ≡ Verdict.accepted)
        ⊎ ((if b then Verdict.accepted else Verdict.wrong_answer) ≡ Verdict.wrong_answer)
  one_of true = inl refl
  one_of false = inr refl

  module _ (readable : (fd : ℕ) (w : W) → Readable host fd w) where
    same_result :
        {a b : CheckerResult} {x : Option (Result JudgeError CheckerResult × W)} {w w' : W}
        → x ≡ some (ok a, w)
        → x ≡ some (ok b, w')
        → a ≡ b
    same_result h k = cc

    -- A checker that has run, on files that are open.
    ran-Agree :
        (answer output : ℕ) (res : CheckerResult) (w w' : W)
        → run_checker host check answer output w ≡ some (ok res, w')
        → (res.accepted ≡ true)
          ↔ Agree check
              (tokens (content (host.content answer w)))
              (tokens (content (host.content output w)))
    ran-Agree answer output res w w' h =
        let (res', run, agrees) =
          run_checker-Agree host check answer output w (readable answer w) (readable output w) in
        subst
          (λ (x : CheckerResult).
            (x.accepted ≡ true)
            ↔ Agree check (tokens (content (host.content answer w)))
                (tokens (content (host.content output w))))
          (same_result run h) agrees

    -- The last step of the check.
    checked-CaseJudged :
        (tc : TestCaseDescriptor) (p q : TestCaseResult) (code input answer : ℕ)
        (run : JudgeeRun host ctx tc p.judgee_exit_status p.output_view) (res : CheckerResult)
        (w w₁ w₂ w₃ w' : W)
        → p.judgee_exit_status ≡ normal code
        → host.seek_start run.out.fd run.viewed ≡ (ok tt, w)
        → host.open_file tc.input_file w ≡ (ok input, w₁)
        → host.open_file tc.answer_file w₁ ≡ (ok answer, w₂)
        → run_checker host check answer run.out.fd w₂ ≡ some (ok res, w₃)
        → pure (checked host res p) w₃ ≡ some (ok q, w')
        → CaseJudged tc q
    checked-CaseJudged tc p q code input answer run res w w₁ w₂ w₃ w' exited sought reopens opens
          ran h =
        let agrees = ran-Agree answer run.out.fd res w₂ w₃ ran in
        let made : checked host res p ≡ q = cc h in
        subst (CaseJudged tc) made (
          run,
          inr (record {
            exit_code = code;
            exited = exited;
            finished = w;
            sought = sought;
            input = input;
            reopened = w₁;
            reopens = reopens;
            answer = answer;
            opened = w₂;
            opens = opens;
            accepts = (
              λ v. agrees.0 ((by_check res.accepted).0 v),
              λ a. (by_check res.accepted).1 (agrees.1 a),
            );
            either = one_of res.accepted;
          }),
        )

    -- What the built-in checker makes of the result of a run.
    check_output-CaseJudged :
        (tc : TestCaseDescriptor) (p q : TestCaseResult) (code : ℕ)
        (run : JudgeeRun host ctx tc p.judgee_exit_status p.output_view) (w w' : W)
        → ctx.builtin_checker ≡ some check
        → p.judgee_exit_status ≡ normal code
        → host.seek_start run.out.fd run.viewed ≡ (ok tt, w)
        → check_output host ctx tc p (some run.out.fd) w ≡ some (ok q, w')
        → CaseJudged tc q
    unfolding check_output
    check_output-CaseJudged tc p q code run w w' has exited sought h =
        let (input, w₁, reopens, h₁) = continue-ok _ _ h in
        let (answer, w₂, opens, h₂) = continue-ok _ _ h₁ in
        let (checker, w₃, must, h₃) = continue-ok {A = TokenCheck} _ _ h₂ in
        let (res, w₄, ran, h₄) = continue-ok {A = CheckerResult} _ _ h₃ in
        let (found, same) = must-ok ctx.builtin_checker w₂ must in
        checked-CaseJudged tc p q code input answer run res w w₁ w₂ w₄ w' exited sought
          (io_call-ok (host.open_file tc.input_file) w reopens)
          (io_call-ok (host.open_file tc.answer_file) w₁ opens)
          (subst (λ (v : W). run_checker host check answer run.out.fd v ≡ some (ok res, w₄))
            (sym same)
            (subst (λ (c : TokenCheck). run_checker host c answer run.out.fd w₃ ≡ some (ok res, w₄))
              (some_injective found has) ran))
          h₄

    judged-CaseJudged :
        (tc : TestCaseDescriptor) (r p q : TestCaseResult) (file : Option ℕ) (w w₁ w' : W)
        → ctx.builtin_checker ≡ some check
        → execute_judgee host ctx tc r w ≡ some (ok (p, file), w₁)
        → check_output host ctx tc p file w₁ ≡ some (ok q, w')
        → CaseJudged tc q
    unfolding check_output
    judged-CaseJudged tc r p q none w w₁ w' has ran h =
        let e = execute_judgee-Executed host ctx tc r p none w w₁ ran in
        let (run, _) = execute_judgee-JudgeeRan host ctx tc r p none w w₁ ran in
        let same : p ≡ q = cc h in subst (CaseJudged tc) same (run, inl (e.3, e.4))
    judged-CaseJudged tc r p q (some fd) w w₁ w' has ran h =
        let e = execute_judgee-Executed host ctx tc r p (some fd) w w₁ ran in
        let (run, (kept, sought)) = execute_judgee-JudgeeRan host ctx tc r p (some fd) w w₁ ran in
        check_output-CaseJudged tc p q e.3.0 run w₁ w' has e.3.1 sought
          (subst (λ (f : ℕ). check_output host ctx tc p (some f) w₁ ≡ some (ok q, w')) (sym kept) h)

    mode-CaseJudged :
        (mode : JudgeMode) (c : BuiltinCheckers) (tc : TestCaseDescriptor) (r q : TestCaseResult)
        (w w' : W)
        → mode ≡ standard c
        → ctx.builtin_checker ≡ some check
        → by_mode host mode ctx tc r w ≡ some (ok q, w')
        → CaseJudged tc q
    unfolding by_mode judge_std
    mode-CaseJudged (standard _) c tc r q w w' e has h =
        let (ran, w₁, run, more) = continue-ok {A = TestCaseResult × Option ℕ} _ _ h in
        judged-CaseJudged tc r ran.0 q ran.1 w w₁ w' has run more
    mode-CaseJudged (special_judge _) c tc r q w w' e has h = cc
    mode-CaseJudged (interactive _) c tc r q w w' e has h = cc

    execute_case-CaseJudged :
        (c : BuiltinCheckers) (tc : TestCaseDescriptor) (q : TestCaseResult) (w w' : W)
        → ctx.task.mode ≡ standard c
        → ctx.builtin_checker ≡ some check
        → execute_case host ctx tc w ≡ some (ok q, w')
        → CaseJudged tc q
    unfolding execute_case
    execute_case-CaseJudged c tc q w w' e has h =
        let (r, w₁, _, more) = continue-ok {A = TestCaseResult} _ _ h in
        mode-CaseJudged ctx.task.mode c tc r q w₁ w' e has more

    InTurn-Pairwise :
        (c : BuiltinCheckers) (tcs : List TestCaseDescriptor) (rs : List TestCaseResult) (w w' : W)
        → ctx.task.mode ≡ standard c
        → ctx.builtin_checker ≡ some check
        → InTurn host ctx tcs rs w w'
        → Pairwise CaseJudged tcs rs
    InTurn-Pairwise c [] [] w w' e has turns = tt
    InTurn-Pairwise c [] (r ∷ rs) w w' e has turns = turns
    InTurn-Pairwise c (tc ∷ tcs) [] w w' e has turns = turns
    InTurn-Pairwise c (tc ∷ tcs) (r ∷ rs) w w' e has (v, one, rest) =
        (execute_case-CaseJudged c tc r w v e has one, InTurn-Pairwise c tcs rs v w' e has rest)

    pub execute-Pairwise :
        (c : BuiltinCheckers) (out : JudgeResult) (w w' : W)
        → ctx.task.mode ≡ standard c
        → ctx.builtin_checker ≡ some check
        → execute host ctx w ≡ some (ok out, w')
        → Pairwise CaseJudged ctx.task.test_suite out.test_suite
          × (out.verdict ≡ first_failure out.test_suite)
    execute-Pairwise c out w w' e has h =
        let (turns, sums) = execute-Summarises host ctx out w w' h in
        (InTurn-Pairwise c ctx.task.test_suite out.test_suite w w' e has turns, sums.first)
