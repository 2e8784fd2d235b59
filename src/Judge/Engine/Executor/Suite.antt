-- ===== src/Judge/Engine/Executor/Suite.antt =====
-- The result of a test suite and the results of its cases (`JudgeContext::execute`).
use wave_judge.Prelude.{◌≡◌, sym, subst, some, List, [], ◌∷◌, ok}
use wave_judge.Judge.Verdicts.{
  TestCaseResult, JudgeResult, new_result, add_test_case_result, add_all,
}
use wave_judge.Judge.Verdicts.Laws.{Summarises, add_all-Summarises}
use wave_judge.Judge.Task.{TestCaseDescriptor}
use wave_judge.Judge.Engine.{Host}
use wave_judge.Judge.Engine.Steps.{continue-ok}
use wave_judge.Judge.Engine.Executor.{JudgeContext, execute_case, execute_cases, execute}

module _ {W : Type 0} (host : Host W) (ctx : JudgeContext) where
  -- The cases are executed in their order, each from the state that the one before it left, and give
  -- these results.
  abbrev pub InTurn : List TestCaseDescriptor → List TestCaseResult → W → W → Type 0
  InTurn [] [] w w' = w ≡ w'
  InTurn (tc ∷ tcs) (r ∷ rs) w w' =
      (v : W) × (execute_case host ctx tc w ≡ some (ok r, v)) × InTurn tcs rs v w'
  InTurn _ _ w w' = ⊥

  execute_cases-adds :
      (tcs : List TestCaseDescriptor) (res out : JudgeResult) (w w' : W)
      → execute_cases host ctx tcs res w ≡ some (ok out, w')
      → (rs : List TestCaseResult) × InTurn tcs rs w w' × (out ≡ add_all res rs)
  unfolding execute_cases add_all
  execute_cases-adds [] res out w w' h = ([], cc, cc)
  execute_cases-adds (tc ∷ tcs) res out w w' h =
      let (r, w₁, one, more) = continue-ok _ (execute_case host ctx tc w) h in
      let (rs, rest, sum) = execute_cases-adds tcs (add_test_case_result res r) out w₁ w' more in
      (r ∷ rs, (w₁, one, rest), sum)

  -- When a suite is executed to its end, the results in its result are, item by item, those of its
  -- test cases, executed in their order and each in the state that the one before it left, and its
  -- overall verdict and usage summarise them.
  pub execute-Summarises :
      (out : JudgeResult) (w w' : W)
      → execute host ctx w ≡ some (ok out, w')
      → InTurn ctx.task.test_suite out.test_suite w w' × Summarises out out.test_suite
  unfolding execute
  execute-Summarises out w w' h =
      let (rs, turns, sum) = execute_cases-adds ctx.task.test_suite new_result out w w' h in
      let s : Summarises out rs = rw sum (add_all-Summarises rs) in
      (
        subst (λ l. InTurn ctx.task.test_suite l w w') (sym s.suite) turns,
        subst (Summarises out) (sym s.suite) s,
      )
