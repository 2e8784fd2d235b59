-- ===== src/Judge/Engine/Compiler.antt =====
-- judge/src/engine/mod.rs: `compile` and what it calls.
pub mod Results
use wave_judge.Prelude.{
  ℕ, zero, suc, Bool, true, false, Option, none, some, Text, Result, ok, err, panic,
}
use wave_judge.Sandbox.Usage.{ExitStatus, normal}
use wave_judge.Sandbox.Builder.{Builder, inherit_envs}
use wave_judge.Judge.Languages.{
  LanguageManager, LanguageProvider, CompilationInfo, Program, ProgramKind,
}
use wave_judge.Judge.Task.{
  JudgeError, language_error, CompilationTaskDescriptor, CompilationResult, succeed, fail,
}
use wave_judge.Judge.Engine.{
  Host, Judge, ◌>>=◌, ◌>>◌, continue, pure, lift, io_call, from_sandbox, build, run_process,
  find_language_provider,
}

unfoldable pub needed_info :
    Result Text CompilationInfo → Result JudgeError (Option CompilationInfo)
needed_info (ok info) = ok (some info)
needed_info (err message) = err (language_error message)
needed_info panic = panic

unfoldable pub info_of :
    Program
    → ProgramKind
    → Option Text
    → Bool
    → LanguageProvider
    → Result JudgeError (Option CompilationInfo)
unfolding needed_info
info_of program kind output_dir true p = ok none
info_of program kind output_dir false p = needed_info (p.compile program kind output_dir)

unfoldable pub get_compile_info :
    LanguageManager
    → Program
    → ProgramKind
    → Option Text
    → Result JudgeError (Option CompilationInfo)
unfolding find_language_provider info_of
get_compile_info m program kind output_dir = elim (find_language_provider m program.language) [
  | ok p ↦ info_of program kind output_dir p.metadata.interpreted p
  | err e ↦ err e
  | panic ↦ panic
]

module _ {W : Type 0} (host : Host W) where
  -- The message of a compiler that fails is what it wrote to the pipe.
  read_message : ℕ → Judge W CompilationResult
  unfolding fail
  read_message stderr = do err_msg ← io_call (host.read_to_string stderr); pure (fail err_msg)

  unfoldable pub compiler_result : Text → ℕ → ExitStatus → Judge W CompilationResult
  unfolding succeed read_message
  compiler_result output_file stderr (normal zero) = pure (succeed output_file)
  compiler_result output_file stderr _ = read_message stderr

  unfoldable pub execute_compiler : CompilationInfo → Judge W CompilationResult
  unfolding build inherit_envs run_process compiler_result
  execute_compiler info = do
    b ← from_sandbox (build info.compiler)
    b' ← from_sandbox (inherit_envs host.vars b)
    ends ← io_call host.pipe
    p ←
        run_process host
          (record b' { redirections = record b'.redirections { stderr = some ends.1 } })
    compiler_result info.output_file ends.0 p.status

  unfoldable pub compile_with : Text → Option CompilationInfo → Judge W CompilationResult
  unfolding succeed execute_compiler
  compile_with file none = pure (succeed file)
  compile_with file (some info) = execute_compiler info

  unfoldable pub compile : LanguageManager → CompilationTaskDescriptor → Judge W CompilationResult
  unfolding get_compile_info compile_with
  compile m task = do
    info ← lift (get_compile_info m task.program task.kind task.output_dir)
    compile_with task.program.file info
