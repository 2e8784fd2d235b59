-- ===== src/Judge/Engine/Judging.antt =====
-- judge/src/engine/mod.rs: `judge`, which makes the context of a task and executes it.
pub mod Contexts
pub mod Compared
pub mod Standard
use wave_judge.Prelude.{
  ℕ, Bool, true, false, Option, none, some, List, [], ◌∷◌, Text, Result, ok, err, panic,
}
use wave_judge.Sandbox.Usage.{Limits}
use wave_judge.Sandbox.Builder.{Builder, Memento, memento}
use wave_judge.Judge.Verdicts.{JudgeResult}
use wave_judge.Judge.Languages.{
  LanguageManager, LanguageProvider, ExecutionInfo, Program, ProgramKind, judgee, checker,
  interactor,
}
use wave_judge.Judge.Checkers.{Float64, TokenCheck, get_checker}
use wave_judge.Judge.Task.{
  JudgeError, language_error, JudgeMode, standard, special_judge, interactive, ResourceLimits,
  JudgeTaskDescriptor,
}
use wave_judge.Judge.Engine.{
  JudgeEngineConfig, Host, Judge, ◌>>=◌, ◌>>◌, continue, pure, lift, io_call, from_sandbox, build,
  apply_judgee_bdr_config, apply_jury_bdr_config, find_language_provider,
}
use wave_judge.Judge.Engine.Executor.{JudgeContext, execute}

unfoldable pub or_language_error : Result Text ExecutionInfo → Result JudgeError ExecutionInfo
or_language_error (ok info) = ok info
or_language_error (err message) = err (language_error message)
or_language_error panic = panic

unfoldable pub get_execution_info :
    LanguageManager → Program → ProgramKind → Result JudgeError ExecutionInfo
unfolding find_language_provider or_language_error
get_execution_info m program kind = elim (find_language_provider m program.language) [
  | ok p ↦ or_language_error (p.execute program kind)
  | err e ↦ err e
  | panic ↦ panic
]

-- The judgee's resource limits.
abbrev pub task_limits : ResourceLimits → Limits
task_limits limits = record {
  cpu_time_limit = some limits.cpu_time_limit;
  real_time_limit = some limits.real_time_limit;
  memory_limit = some limits.memory_limit;
}

abbrev pub set_limits : ResourceLimits → Builder → Builder
set_limits limits b = record b { limits = task_limits limits }

-- The judge directory is the working and the root directory.
abbrev pub in_dir : Text → Builder → Builder
in_dir dir b = record b { dir = record { working_dir = some dir; root_dir = some dir } }

module _ {W : Type 0} (fl : Float64) (host : Host W) (m : LanguageManager)
    (config : JudgeEngineConfig) where
  -- The jury's builder, from its program.
  unfoldable pub jury_builder : Program → ProgramKind → Text → Judge W Memento
  unfolding get_execution_info build apply_jury_bdr_config memento
  jury_builder program kind dir = do
    info ← lift (get_execution_info m program kind)
    b ← from_sandbox (build info)
    b' ← from_sandbox (apply_jury_bdr_config config b)
    pure (memento (in_dir dir b'))

  -- The contexts that `JudgeContext::standard` and `JudgeContext::with_jury` make.
  unfoldable pub context_of :
      JudgeTaskDescriptor → Text → Memento → JudgeMode → Judge W JudgeContext
  unfolding get_checker jury_builder
  context_of task dir judgee_bdr (standard c) = pure (record {
    task = task;
    judge_dir = dir;
    judgee_bdr = judgee_bdr;
    builtin_checker = some (get_checker fl c);
    jury_bdr = none;
  })
  context_of task dir judgee_bdr (special_judge program) = do
    jury ← jury_builder program checker dir
    pure (record {
      task = task;
      judge_dir = dir;
      judgee_bdr = judgee_bdr;
      builtin_checker = none;
      jury_bdr = some jury;
    })
  context_of task dir judgee_bdr (interactive program) = do
    jury ← jury_builder program interactor dir
    pure (record {
      task = task;
      judge_dir = dir;
      judgee_bdr = judgee_bdr;
      builtin_checker = none;
      jury_bdr = some jury;
    })

  -- What `judge` does before it executes the test suite.
  unfoldable pub prepare : JudgeTaskDescriptor → Judge W JudgeContext
  unfolding get_execution_info build apply_judgee_bdr_config memento context_of
  prepare task = do
    info ← lift (get_execution_info m task.program judgee)
    b ← from_sandbox (build info)
    b' ← from_sandbox (apply_judgee_bdr_config config b)
    dir ← io_call (host.temp_dir config.judge_dir)
    context_of task dir (memento (in_dir dir (set_limits task.limits b'))) task.mode

  unfoldable pub judge : JudgeTaskDescriptor → Judge W JudgeResult
  unfolding prepare execute
  judge task = do ctx ← prepare task; execute host ctx
