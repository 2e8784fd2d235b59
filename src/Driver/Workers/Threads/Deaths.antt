-- ===== src/Driver/Workers/Threads/Deaths.antt =====
-- The submissions that end a worker thread.
use wave_judge.Prelude.{ℕ, suc, ◌≡◌, refl, inl, inr, true, false, not, ◌&&◌, some, List, ok, panic}
use wave_judge.Prelude.Work.{go_on}
use wave_judge.Judge.Languages.{judgee}
use wave_judge.Judge.Task.{CompilationResult, TestCaseDescriptor, succeed, fail}
use wave_judge.Judge.Engine.Compiler.Results.{Outcome}
use wave_judge.Driver.Entities.{SubmissionInfo, to_judge_language}
use wave_judge.Driver.Workers.{
  Services, ProblemMetadata, has_jury, jury_compile_succeeded, judge_submission, after_compilation,
  compile_submission, handle_submission,
}
use wave_judge.Driver.Workers.Submissions.{CompilesAsEngine}
use wave_judge.Driver.Workers.Threads.{
  Board, dead, fetched, handled, iteration, onwards, worker_entry,
}

module _ {W E : Type 0} (services : Services W E) (board : Board W E) where
  -- What happens up to the compilation of a submission that compiles.
  pub record Compiles (submission : SubmissionInfo) (p : ProblemMetadata) (w w' : W) : Type 0 where
    pub before : W
    pub located : W
    pub test_cases : List TestCaseDescriptor
    pub result : CompilationResult
    pub received : board.get_submission w ≡ (ok (some submission), before)
    pub described : services.problem submission.problem_id before ≡ (ok p, located)
    pub unpacked : W
    pub archived : services.archive p.archive_id located ≡ (ok test_cases, unpacked)
    pub jury_ready : (has_jury p && not (jury_compile_succeeded p)) ≡ false
    pub compiled :
        services.compile_source submission.source
          (to_judge_language submission.language)
          judgee
          unpacked
        ≡ (ok result, w')
    pub good : result.succeeded ≡ true

  after_compilation-panics :
      (submission : SubmissionInfo) (p : ProblemMetadata) (test_cases : List TestCaseDescriptor)
      (r : CompilationResult) (w : W)
      → Outcome r
      → r.succeeded ≡ true
      → after_compilation services submission p test_cases r w ≡ (panic, w)
  unfolding after_compilation judge_submission succeed fail go_on
  after_compilation-panics submission p test_cases r w (inl (file, made)) good = rw made refl
  after_compilation-panics submission p test_cases r w (inr (message, made)) good = cc (good, made)

  handle_submission-panics :
      (submission : SubmissionInfo) (p : ProblemMetadata) (w w' : W)
      → CompilesAsEngine services
      → (c : Compiles submission p w w')
      → handle_submission services submission c.before ≡ (panic, w')
  unfolding handle_submission compile_submission go_on
  handle_submission-panics submission p w w' engine c = rw c.described (
      rw c.archived (
        rw c.jury_ready (
          rw c.compiled (
            after_compilation-panics submission p c.test_cases c.result w'
              (engine submission.source _ _ c.unpacked w' c.result c.compiled) c.good))))

  -- When the fork server compiles as the engine does, a submission that compiles ends the thread that
  -- received it, in the state after the compilation, however many rounds it would have had.
  pub worker_entry-Compiles :
      (submission : SubmissionInfo) (p : ProblemMetadata) (n : ℕ) (w w' : W)
      → CompilesAsEngine services
      → Compiles submission p w w'
      → worker_entry services board (suc n) w ≡ dead w'
  unfolding worker_entry iteration onwards fetched handled
  worker_entry-Compiles submission p n w w' engine c =
      rw c.received (rw (handle_submission-panics submission p w w' engine c) refl)
