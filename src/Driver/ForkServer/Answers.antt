-- ===== src/Driver/ForkServer/Answers.antt =====
-- What the client gets from the fork server over the engine.
use wave_judge.Prelude.{
  Bool, true, false, Option, none, some, Text, Result, ok, err, panic, ◌≡◌, refl, ◌∙◌, ap, arith,
}
use wave_judge.Judge.Tokens.{IoError}
use wave_judge.Judge.Checkers.{Float64}
use wave_judge.Judge.Languages.{LanguageManager, LanguageIdentifier, ProgramKind}
use wave_judge.Judge.Task.{CompilationTaskDescriptor, CompilationResult, JudgeError, compilation_of}
use wave_judge.Judge.Engine.{Host, JudgeEngineConfig, pure as answer_with}
use wave_judge.Judge.Engine.Steps.{continue-ok}
use wave_judge.Judge.Engine.Compiler.{compile as engine_compile}
use wave_judge.Judge.Engine.Compiler.Results.{Outcome, compile-Outcome}
use wave_judge.Driver.Workers.{compile, CommandResult, compiled, judged}
use wave_judge.Driver.ForkServer.{
  Server, ClientError, TempFiles, handle_cmd, served, exchange, execute_cmd, cleaned,
  unwrap_as_compilation_result, compile_in, with_dir, with_file, compile_source,
}

-- The answer of the engine in an answer of the client.
reply_of :
    {W : Type 0}
    → Option (Result ClientError CommandResult × Server W)
    → Option (Result JudgeError CommandResult × W)
reply_of (some (ok r, s)) = some (ok r, s.world)
reply_of _ = none

module _ {W : Type 0} (fl : Float64) (host : Host W) (m : LanguageManager)
    (config : JudgeEngineConfig) where
  served-ok :
      (x : Option (Result JudgeError CommandResult × W)) (r : CommandResult) (s : Server W)
      → served fl host m config x ≡ some (ok r, s)
      → x ≡ some (ok r, s.world)
  unfolding served reply_of
  served-ok none r s h = absurd (ground arith)
  served-ok (some (ok q, w)) r s h = ap reply_of h
  served-ok (some (err x, w)) r s h = absurd (ground arith)
  served-ok (some (panic, w)) r s h = absurd (ground arith)

  -- The engine's compilation behind a command.
  handle_cmd-compiles :
      (task : CompilationTaskDescriptor) (r : CompilationResult) (w w' : W)
      → handle_cmd fl host m config (compile task) w ≡ some (ok (compiled r), w')
      → engine_compile host m task w ≡ some (ok r, w')
  unfolding handle_cmd
  handle_cmd-compiles task r w w' h =
      let (q, v, done, e) =
        continue-ok {A = CompilationResult} (λ x. answer_with (compiled x))
          (engine_compile host m task w) h in
      let same : q ≡ r = ground (arith, e) in
      let last : v ≡ w' = cc e in done ∙ rw same (rw last refl)

  execute_cmd-compiles :
      (b : Bool) (task : CompilationTaskDescriptor) (r : CompilationResult) (w : W) (s : Server W)
      → exchange fl host m config b (compile task) w ≡ some (ok (compiled r), s)
      → (b ≡ true) × (engine_compile host m task w ≡ some (ok r, s.world))
  unfolding exchange
  execute_cmd-compiles true task r w s h =
      (refl, handle_cmd-compiles task r w s.world (served-ok _ (compiled r) s h))
  execute_cmd-compiles false task r w s h = absurd (ground arith)

  module _ (files : TempFiles W) where
    -- The task of `compile_source`.
    abbrev pub task_for : Text → LanguageIdentifier → ProgramKind → Text → CompilationTaskDescriptor
    task_for file lang kind dir =
        record (compilation_of (record { file = file; language = lang })) {
          output_dir = some dir;
          kind = kind;
        }

    -- The engine compiled the source file into the output directory, and then that directory and that
    -- file were dropped.
    abbrev pub CompiledIn :
        Text → LanguageIdentifier → ProgramKind → Text → W → CompilationResult → W → Type 0
    CompiledIn file lang kind dir w r w' =
        (done : W) × (engine_compile host m (task_for file lang kind dir) w ≡ some (ok r, done))
        × (w' ≡ files.drop_file file (files.drop_dir dir done))

    -- A compilation of a source in a file and a directory that were made for it, on a server that is
    -- alive.
    pub record CompiledSource (source : Text) (lang : LanguageIdentifier) (kind : ProgramKind)
        (s s' : Server W) (r : CompilationResult) : Type 0 where
      pub up : s.alive ≡ true
      pub file : Text
      pub written : W
      pub writes : files.source_file source s.world ≡ (ok file, written)
      pub dir : Text
      pub made : W
      pub makes : files.temp_dir written ≡ (ok dir, made)
      pub compiles : CompiledIn file lang kind dir made r s'.world
      pub outcome : Outcome r

    compiled-ok :
        (file dir : Text) (x : Option (Result ClientError CommandResult × Server W))
        (r : CompilationResult) (s : Server W)
        → cleaned fl host m config files file dir
            (unwrap_as_compilation_result fl host m config files x)
          ≡ some (ok r, s)
        → (s₁ : Server W) × (x ≡ some (ok (compiled r), s₁))
          × (s.world ≡ files.drop_file file (files.drop_dir dir s₁.world))
    unfolding cleaned unwrap_as_compilation_result
    compiled-ok file dir none r s h = absurd (ground arith)
    compiled-ok file dir (some (ok (compiled q), s₁)) r s h = (s₁, ground arith, ground arith)
    compiled-ok file dir (some (ok (judged q), s₁)) r s h = absurd (ground arith)
    compiled-ok file dir (some (err e, s₁)) r s h = absurd (ground arith)
    compiled-ok file dir (some (panic, s₁)) r s h = absurd (ground arith)

    compile_in-CompiledIn :
        (file : Text) (lang : LanguageIdentifier) (kind : ProgramKind) (dir : Text)
        (s s' : Server W) (r : CompilationResult)
        → compile_in fl host m config files file lang kind dir s ≡ some (ok r, s')
        → (s.alive ≡ true) × CompiledIn file lang kind dir s.world r s'.world
    unfolding compile_in execute_cmd
    compile_in-CompiledIn file lang kind dir s s' r h =
        let (s₁, e, gone) = compiled-ok file dir _ r s' h in
        let (up, done) =
          execute_cmd-compiles s.alive (task_for file lang kind dir) r s.world s₁ e in
        (up, (s₁.world, done, gone))

    with_dir-CompiledIn :
        (file : Text) (lang : LanguageIdentifier) (kind : ProgramKind) (up : Bool)
        (x : Result IoError Text × W) (s' : Server W) (r : CompilationResult)
        → with_dir fl host m config files file lang kind up x ≡ some (ok r, s')
        → (up ≡ true)
          × (dir : Text) × (made : W) × (x ≡ (ok dir, made))
          × CompiledIn file lang kind dir made r s'.world
    unfolding with_dir
    with_dir-CompiledIn file lang kind up (ok dir, w) s' r h =
        let (alive, done) = compile_in-CompiledIn file lang kind dir _ s' r h in
        (alive, dir, w, refl, done)
    with_dir-CompiledIn file lang kind up (err e, w) s' r h = absurd (ground arith)
    with_dir-CompiledIn file lang kind up (panic, w) s' r h = absurd (ground arith)

    with_file-CompiledSource :
        (source : Text) (lang : LanguageIdentifier) (kind : ProgramKind) (s s' : Server W)
        (x : Result IoError Text × W) (r : CompilationResult)
        → files.source_file source s.world ≡ x
        → with_file fl host m config files lang kind s.alive x ≡ some (ok r, s')
        → CompiledSource source lang kind s s' r
    unfolding with_file
    with_file-CompiledSource source lang kind s s' (ok file, w) r written h =
        let (alive, dir, made, makes, done) =
          with_dir-CompiledIn file lang kind s.alive (files.temp_dir w) s' r h in
        record {
          up = alive;
          file = file;
          written = w;
          writes = written;
          dir = dir;
          made = made;
          makes = makes;
          compiles = done;
          outcome = compile-Outcome host m (task_for file lang kind dir) r made done.0 done.1;
        }
    with_file-CompiledSource source lang kind s s' (err e, w) r written h = absurd (ground arith)
    with_file-CompiledSource source lang kind s s' (panic, w) r written h = absurd (ground arith)

    -- When compile_source of the client returns a result, the server was alive, the source is in a
    -- file and the output directory is one made for it, and the result is that of the engine's
    -- compilation of that file into that directory: a success with an output file and no message, or a
    -- failure with a message only. After the compilation just that directory and that file are
    -- dropped, in this order.
    pub compile_source-CompiledSource :
        (source : Text) (lang : LanguageIdentifier) (kind : ProgramKind) (s s' : Server W)
        (r : CompilationResult)
        → compile_source fl host m config files source lang kind s ≡ some (ok r, s')
        → CompiledSource source lang kind s s' r
    unfolding compile_source
    compile_source-CompiledSource source lang kind s s' r h =
        with_file-CompiledSource source lang kind s s' (files.source_file source s.world) r refl h
