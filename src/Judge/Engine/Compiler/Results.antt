-- ===== src/Judge/Engine/Compiler/Results.antt =====
-- What a compilation that returns has in its result.
use wave_judge.Prelude.{ℕ, zero, suc, ◌≡◌, refl, ◌⊎◌, inl, inr, true, Option, none, some, Text, ok}
use wave_judge.Sandbox.Usage.{
  ExitStatus, not_exited, normal, killed_by_signal, cpu_time_limit_exceeded,
  real_time_limit_exceeded, memory_limit_exceeded, banned_syscall,
}
use wave_judge.Sandbox.Daemon.{Process}
use wave_judge.Judge.Languages.{
  LanguageManager, LanguageProvider, CompilationInfo, Program, ProgramKind, find,
}
use wave_judge.Judge.Task.{CompilationTaskDescriptor, CompilationResult, succeed, fail}
use wave_judge.Judge.Engine.{Host, continue, find_language_provider}
use wave_judge.Judge.Engine.Steps.{continue-ok}
use wave_judge.Judge.Engine.Compiler.{
  read_message, compiler_result, execute_compiler, compile_with, compile, get_compile_info, info_of,
}

-- A result is a success with an output file and no message, or a failure with a message only.
abbrev pub Outcome : CompilationResult → Type 0
Outcome r = ((file : Text) × (r ≡ succeed file)) ⊎ ((message : Text) × (r ≡ fail message))

get_compile_info-interpreted :
    (m : LanguageManager) (program : Program) (kind : ProgramKind) (output_dir : Option Text)
    (p : LanguageProvider)
    → find program.language m ≡ some p
    → p.metadata.interpreted ≡ true
    → get_compile_info m program kind output_dir ≡ ok none
unfolding get_compile_info find_language_provider info_of
get_compile_info-interpreted m program kind output_dir p found i =
    rw (found, get_compile_info, find_language_provider) (rw i refl)

module _ {W : Type 0} (host : Host W) where
  read_message-fail :
      (stderr : ℕ) (r : CompilationResult) (w w' : W)
      → read_message host stderr w ≡ some (ok r, w')
      → (message : Text) × (r ≡ fail message)
  unfolding read_message
  read_message-fail stderr r w w' h =
      let (message, w₁, _, done) = continue-ok {A = Text} _ _ h in (message, cc done)

  -- The compiler's exit status decides: only the exit code 0 is a success.
  abbrev ByStatus : Text → ExitStatus → CompilationResult → Type 0
  ByStatus file (normal zero) r = r ≡ succeed file
  ByStatus file _ r = (message : Text) × (r ≡ fail message)

  compiler_result-ByStatus :
      (file : Text) (stderr : ℕ) (status : ExitStatus) (r : CompilationResult) (w w' : W)
      → compiler_result host file stderr status w ≡ some (ok r, w')
      → ByStatus file status r
  unfolding compiler_result
  compiler_result-ByStatus file stderr (normal zero) r w w' h = cc
  compiler_result-ByStatus file stderr (normal (suc n)) r w w' h = read_message-fail stderr r w w' h
  compiler_result-ByStatus file stderr not_exited r w w' h = read_message-fail stderr r w w' h
  compiler_result-ByStatus file stderr (killed_by_signal s) r w w' h =
      read_message-fail stderr r w w' h
  compiler_result-ByStatus file stderr cpu_time_limit_exceeded r w w' h =
      read_message-fail stderr r w w' h
  compiler_result-ByStatus file stderr real_time_limit_exceeded r w w' h =
      read_message-fail stderr r w w' h
  compiler_result-ByStatus file stderr memory_limit_exceeded r w w' h =
      read_message-fail stderr r w w' h
  compiler_result-ByStatus file stderr banned_syscall r w w' h = read_message-fail stderr r w w' h

  ByStatus-Outcome :
      (file : Text) (status : ExitStatus) (r : CompilationResult)
      → ByStatus file status r
      → Outcome r
  ByStatus-Outcome file (normal zero) r h = inl (file, h)
  ByStatus-Outcome file (normal (suc n)) r h = inr h
  ByStatus-Outcome file not_exited r h = inr h
  ByStatus-Outcome file (killed_by_signal s) r h = inr h
  ByStatus-Outcome file cpu_time_limit_exceeded r h = inr h
  ByStatus-Outcome file real_time_limit_exceeded r h = inr h
  ByStatus-Outcome file memory_limit_exceeded r h = inr h
  ByStatus-Outcome file banned_syscall r h = inr h

  execute_compiler-Outcome :
      (info : CompilationInfo) (r : CompilationResult) (w w' : W)
      → execute_compiler host info w ≡ some (ok r, w')
      → Outcome r
  unfolding execute_compiler
  execute_compiler-Outcome info r w w' h =
      let (b, w₁, _, h₁) = continue-ok _ _ h in
      let (b', w₂, _, h₂) = continue-ok _ _ h₁ in
      let (ends, w₃, _, h₃) = continue-ok {A = ℕ × ℕ} _ _ h₂ in
      let (p, w₄, _, h₄) = continue-ok {A = Process} _ _ h₃ in
      ByStatus-Outcome info.output_file p.status r
        (compiler_result-ByStatus info.output_file ends.0 p.status r w₄ w' h₄)

  compile_with-Outcome :
      (file : Text) (info : Option CompilationInfo) (r : CompilationResult) (w w' : W)
      → compile_with host file info w ≡ some (ok r, w')
      → Outcome r
  unfolding compile_with
  compile_with-Outcome file none r w w' h = inl (file, cc)
  compile_with-Outcome file (some info) r w w' h = execute_compiler-Outcome info r w w' h

  -- A compilation that returns has either succeeded, with the path of an output file and no compiler
  -- message, or failed, with a message and no output file.
  pub compile-Outcome :
      (m : LanguageManager) (task : CompilationTaskDescriptor) (r : CompilationResult) (w w' : W)
      → compile host m task w ≡ some (ok r, w')
      → Outcome r
  unfolding compile
  compile-Outcome m task r w w' h =
      let (info, w₁, _, h₁) = continue-ok _ _ h in
      compile_with-Outcome task.program.file info r w₁ w' h₁

  -- When the provider that is found for the program's language is an interpreted one's, the
  -- compilation succeeds with the source file as its output and does not touch the machine.
  pub compile-interpreted :
      (m : LanguageManager) (task : CompilationTaskDescriptor) (p : LanguageProvider) (w : W)
      → find task.program.language m ≡ some p
      → p.metadata.interpreted ≡ true
      → compile host m task w ≡ some (ok (succeed task.program.file), w)
  unfolding compile compile_with continue
  compile-interpreted m task p w found i =
      rw (get_compile_info-interpreted m task.program task.kind task.output_dir p found i) refl
