-- ===== src/Judge/Engine/Judging/Standard.antt =====
-- The judge of a standard task: from its files to the verdict of each case and of the task.
use wave_judge.Prelude.{ℕ, ◌≡◌, ap, ◌∙◌, subst, some, Text, ok}
use wave_judge.Sandbox.Builder.{Builder, Memento}
use wave_judge.Judge.Verdicts.{JudgeResult}
use wave_judge.Judge.Verdicts.Laws.{first_failure}
use wave_judge.Judge.Languages.{LanguageManager}
use wave_judge.Judge.Checkers.{Float64, BuiltinCheckers, get_checker}
use wave_judge.Judge.Task.{JudgeMode, standard, special_judge, interactive, JudgeTaskDescriptor}
use wave_judge.Judge.Engine.{JudgeEngineConfig, Host, pure}
use wave_judge.Judge.Engine.Steps.{continue-ok}
use wave_judge.Judge.Engine.Executor.{JudgeContext}
use wave_judge.Judge.Engine.Executor.Outputs.{Readable}
use wave_judge.Judge.Engine.Judging.{context_of, prepare, judge}
use wave_judge.Judge.Engine.Judging.Compared.{Pairwise, CaseJudged, execute-Pairwise}

module _ {W : Type 0} (fl : Float64) (host : Host W) (m : LanguageManager)
    (config : JudgeEngineConfig) where
  -- The context of a standard task has the built-in checker of the mode.
  record IsStandard (c : BuiltinCheckers) (task : JudgeTaskDescriptor) (ctx : JudgeContext)
      : Type 0 where
    same_task : ctx.task ≡ task
    checker : ctx.builtin_checker ≡ some (get_checker fl c)

  context_of-IsStandard :
      (mode : JudgeMode) (c : BuiltinCheckers) (task : JudgeTaskDescriptor) (dir : Text)
      (judgee : Memento) (ctx : JudgeContext) (w w' : W)
      → mode ≡ standard c
      → context_of fl host m config task dir judgee mode w ≡ some (ok ctx, w')
      → IsStandard c task ctx
  unfolding context_of
  context_of-IsStandard (standard c') c task dir judgee ctx w w' e h = record {
    same_task = cc;
    checker =
        ap (λ (x : JudgeContext). x.builtin_checker) (made h)
        ∙ ap (λ (x : BuiltinCheckers). some (get_checker fl x)) (cc);
  }
    where
      made : {a b : JudgeContext} → pure a w ≡ some (ok b, w') → b ≡ a
      made k = cc
  context_of-IsStandard (special_judge p) c task dir judgee ctx w w' e h = cc
  context_of-IsStandard (interactive p) c task dir judgee ctx w w' e h = cc

  prepare-IsStandard :
      (c : BuiltinCheckers) (task : JudgeTaskDescriptor) (ctx : JudgeContext) (w w' : W)
      → task.mode ≡ standard c
      → prepare fl host m config task w ≡ some (ok ctx, w')
      → IsStandard c task ctx
  unfolding prepare
  prepare-IsStandard c task ctx w w' e h =
      let (info, w₁, _, h₁) = continue-ok _ _ h in
      let (b, w₂, _, h₂) = continue-ok _ _ h₁ in
      let (b', w₃, _, h₃) = continue-ok {A = Builder} _ _ h₂ in
      let (dir, w₄, _, h₄) = continue-ok {A = Text} _ _ h₃ in
      context_of-IsStandard task.mode c task dir _ ctx w₄ w' e h₄

  -- When every file that is open gives all its bytes without an error and its tokens are UTF-8, and
  -- the judge of a task with a built-in checker returns, its result has one result for each test case,
  -- in order, and the first verdict that is not `Accepted`, or `Accepted`. In each case the judgee of
  -- the prepared context ran with the input file as its standard input and, as its standard output, a
  -- file made for it in the judge directory. A case whose judgee was stopped has the verdict that says
  -- how; in any other the judgee exited, that file was set back to its start, and the verdict is
  -- `Accepted` exactly when the checker's comparison accepts the tokens of the answer file and of that
  -- file, else `WrongAnswer`.
  pub judge-Standard :
      (c : BuiltinCheckers) (task : JudgeTaskDescriptor) (out : JudgeResult) (w w' : W)
      → ((fd : ℕ) (v : W) → Readable host fd v)
      → task.mode ≡ standard c
      → judge fl host m config task w ≡ some (ok out, w')
      → (ctx : JudgeContext) × (w₁ : W) × (prepare fl host m config task w ≡ some (ok ctx, w₁))
        × Pairwise (CaseJudged host (get_checker fl c) ctx) task.test_suite out.test_suite
        × (out.verdict ≡ first_failure out.test_suite)
  unfolding judge
  judge-Standard c task out w w' readable e h =
      let (ctx, w₁, made, more) = continue-ok {A = JudgeContext} _ _ h in
      let s = prepare-IsStandard c task ctx w w₁ e made in
      let (cases, first) =
        execute-Pairwise host (get_checker fl c) ctx readable c out w₁ w'
          (ap (λ (t : JudgeTaskDescriptor). t.mode) s.same_task ∙ e) s.checker more in
      (
        ctx,
        w₁,
        made,
        subst
            (λ (t : JudgeTaskDescriptor).
              Pairwise (CaseJudged host (get_checker fl c) ctx) t.test_suite out.test_suite)
            s.same_task cases,
        first,
      )
