-- ===== src/Driver/Workers/Submissions.antt =====
-- What a worker makes of a submission, when compilations give what the engine's `compile` gives.
use wave_judge.Prelude.{
  ◌≡◌, refl, ◌⊎◌, inl, inr, Bool, true, false, not, ◌&&◌, List, Text, ok, subst, if◌then◌else◌,
  codes,
}
use wave_judge.Prelude.Work.{go_on, give, go_on-ok}
use wave_judge.Judge.Languages.{LanguageIdentifier, ProgramKind}
use wave_judge.Judge.Task.{CompilationResult, TestCaseDescriptor, succeed, fail}
use wave_judge.Judge.Engine.Compiler.Results.{Outcome}
use wave_judge.Driver.Entities.{
  SubmissionInfo, SubmissionJudgeResult, judge_failed, compilation_failed,
}
use wave_judge.Driver.Workers.{
  Services, ProblemMetadata, has_jury, jury_compile_succeeded, failure, compilation_failure,
  judge_submission, after_compilation, compile_submission, handle_submission,
}

-- A compilation that the fork server reports has an outcome of the engine's `compile`.
abbrev pub CompilesAsEngine : {W E : Type 0} → Services W E → Type 0
CompilesAsEngine {W} services =
    (source : Text) (lang : LanguageIdentifier) (kind : ProgramKind) (w w' : W)
    (r : CompilationResult)
    → services.compile_source source lang kind w ≡ (ok r, w')
    → Outcome r

-- Not a verdict of the engine.
abbrev pub NotJudged : SubmissionJudgeResult → Type 0
NotJudged r = (r.verdict ≡ judge_failed) ⊎ (r.verdict ≡ compilation_failed)

module _ {W E : Type 0} (services : Services W E) where
  after_compilation-NotJudged :
      (submission : SubmissionInfo) (p : ProblemMetadata) (test_cases : List TestCaseDescriptor)
      (result : CompilationResult) (r : SubmissionJudgeResult) (w w' : W)
      → Outcome result
      → after_compilation services submission p test_cases result w ≡ (ok r, w')
      → NotJudged r
  unfolding after_compilation judge_submission succeed fail go_on compilation_failure failure
  after_compilation-NotJudged submission p test_cases result r w w' (inl (file, made)) h = absurd (
      impossible
        (subst (λ x. after_compilation services submission p test_cases x w ≡ (ok r, w')) made h))
    where
      impossible :
          after_compilation services submission p test_cases (succeed file) w ≡ (ok r, w') → ⊥
      impossible g = cc g
  after_compilation-NotJudged submission p test_cases result r w w' (inr (message, made)) h = inr (
      verdict_of_failure
        (subst (λ x. after_compilation services submission p test_cases x w ≡ (ok r, w')) made h))
    where
      verdict_of_failure :
          after_compilation services submission p test_cases (fail message) w ≡ (ok r, w')
          → r.verdict ≡ compilation_failed
      verdict_of_failure g =
          subst (λ (x : SubmissionJudgeResult). x.verdict ≡ compilation_failed)
            {x = compilation_failure message} {y = r} (cc g) refl

  compile_submission-NotJudged :
      (submission : SubmissionInfo) (p : ProblemMetadata) (test_cases : List TestCaseDescriptor)
      (r : SubmissionJudgeResult) (w w' : W)
      → CompilesAsEngine services
      → compile_submission services submission p test_cases w ≡ (ok r, w')
      → NotJudged r
  unfolding compile_submission
  compile_submission-NotJudged submission p test_cases r w w' engine h =
      let (result, w₁, compiled, h₁) = go_on-ok _ _ h in
      after_compilation-NotJudged submission p test_cases result r w₁ w'
        (engine submission.source _ _ w w₁ result compiled) h₁

  checked_jury :
      (b : Bool) (submission : SubmissionInfo) (p : ProblemMetadata)
      (test_cases : List TestCaseDescriptor) (r : SubmissionJudgeResult) (w w' : W)
      → CompilesAsEngine services
      → (if b
            then give (ok (failure (codes "Answer checker did not compiled successfully.")))
            else compile_submission services submission p test_cases)
          w
        ≡ (ok r, w')
      → NotJudged r
  unfolding failure
  checked_jury true submission p test_cases r w w' engine h = inl (
      subst (λ (x : SubmissionJudgeResult). x.verdict ≡ judge_failed)
        {x = failure (codes "Answer checker did not compiled successfully.")} {y = r} (cc h) refl)
  checked_jury false submission p test_cases r w w' engine h =
      compile_submission-NotJudged submission p test_cases r w w' engine h

  -- When the fork server compiles as the engine does, no submission is ever judged: a handling that
  -- returns says that the judge or the compilation failed. The path of the executable is looked for in
  -- the compiler's message, which a success does not have.
  pub handle_submission-NotJudged :
      (submission : SubmissionInfo) (r : SubmissionJudgeResult) (w w' : W)
      → CompilesAsEngine services
      → handle_submission services submission w ≡ (ok r, w')
      → NotJudged r
  unfolding handle_submission
  handle_submission-NotJudged submission r w w' engine h =
      let (p, w₁, _, h₁) = go_on-ok {A = ProblemMetadata} _ _ h in
      let (test_cases, w₂, _, h₂) = go_on-ok {A = List TestCaseDescriptor} _ _ h₁ in
      checked_jury (has_jury p && not (jury_compile_succeeded p)) submission p test_cases r w₂ w'
        engine h₂
