-- ===== src/Driver/ForkServer.antt =====
-- driver/src/forkserver: the commands to the engine in another process (mod.rs), its loop and its
-- configuration (core.rs). The pipes carry a command and its answer; the files of a compilation are
-- a parameter (`TempFiles`), and so are the users of the system and libseccomp's resolver.
pub mod Answers
pub mod Handler
use wave_judge.Prelude.{
  contains, ◌==◌, if◌then◌else◌, ℕ, Bool, true, false, Option, none, some, List, [], ◌∷◌, map, Text,
  Result, ok, err, panic,
}
use wave_judge.Sandbox.Memory.{mega_bytes}
use wave_judge.Sandbox.Builder.{SystemCall, from_name}
use wave_judge.Judge.Tokens.{IoError, os_error}
use wave_judge.Judge.Verdicts.{JudgeResult}
use wave_judge.Judge.Checkers.{Float64}
use wave_judge.Judge.Languages.{
  no_languages, LanguageManager, LanguageIdentifier, ProgramKind, Dylib, load_dylib,
}
use wave_judge.Judge.Task.{
  CompilationTaskDescriptor, CompilationResult, JudgeTaskDescriptor, JudgeError, compilation_of,
}
use wave_judge.Judge.Engine.{
  Host, JudgeEngineConfig, new_config, Judge as Engine, continue, pure as answer_with,
}
use wave_judge.Judge.Engine.Compiler.{compile as engine_compile}
use wave_judge.Judge.Engine.Judging.{judge as engine_judge}
use wave_judge.Driver.Workers.{
  Command, compile, judge, CommandResult, compiled, judged, from_millis,
}

-- `JudgeEngineConfig` of driver/src/config.rs
pub record AppEngineConfig : Type 0 where
  pub judge_dir : Text
  pub language_dylibs : List Text
  pub judge_username : Text
  pub judgee_syscall_whitelist : List Text
  pub jury_cpu_time_limit : ℕ
  pub jury_real_time_limit : ℕ
  pub jury_memory_limit : ℕ
  pub jury_syscall_whitelist : List Text

-- `lookup_uid`, over what `getpwnam` gives, with errno, which is 0 before the call. A name with a NUL
-- is no `CString`.
unfoldable pub looked_up : Option ℕ × ℕ → Result IoError (Option ℕ)
looked_up (some uid, errno) = ok (some uid)
looked_up (none, errno) = if errno == 0 then ok none else err (os_error errno)

unfoldable pub lookup_uid : (Text → Option ℕ × ℕ) → Text → Result IoError (Option ℕ)
unfolding looked_up contains
lookup_uid getpwnam username = if contains 0 username then panic else looked_up (getpwnam username)

-- The loops over a whitelist: a name that is not known is left out.
unfoldable pub convert_all : (Text → Option ℕ) → List Text → List SystemCall
unfolding from_name
convert_all resolve [] = []
convert_all resolve (name ∷ rest) =
    let more = convert_all resolve rest in
    elim (from_name resolve name) [ ok sc ↦ sc ∷ more | _ ↦ more ]

-- The configuration with a user id, if one was found.
unfoldable pub config_with : (Text → Option ℕ) → AppEngineConfig → Option ℕ → JudgeEngineConfig
unfolding convert_all
config_with resolve app uid = record {
  judge_uid = uid;
  judge_dir = some app.judge_dir;
  judgee_syscall_whitelist = convert_all resolve app.judgee_syscall_whitelist;
  jury_cpu_time_limit = some (from_millis app.jury_cpu_time_limit);
  jury_real_time_limit = some (from_millis app.jury_real_time_limit);
  jury_memory_limit = some (mega_bytes app.jury_memory_limit);
  jury_syscall_whitelist = convert_all resolve app.jury_syscall_whitelist;
}

-- `none` is a panic.
unfoldable pub judge_uid_of : Result IoError (Option ℕ) → Option (Option ℕ)
judge_uid_of (ok (some uid)) = some (some uid)
judge_uid_of (ok none) = some none
judge_uid_of (err e) = some none
judge_uid_of panic = none

unfoldable pub with_uid :
    (Text → Option ℕ) → AppEngineConfig → Option (Option ℕ) → Option JudgeEngineConfig
unfolding config_with
with_uid resolve app none = none
with_uid resolve app (some uid) = some (config_with resolve app uid)

unfoldable pub get_judge_engine_config :
    (Text → Option ℕ × ℕ) → (Text → Option ℕ) → AppEngineConfig → Option JudgeEngineConfig
unfolding judge_uid_of lookup_uid with_uid
get_judge_engine_config getpwnam resolve app =
    with_uid resolve app (judge_uid_of (lookup_uid getpwnam app.judge_username))

-- The libraries of `CommandHandler::new`: one that fails is left out, and a panic ends the server.
unfoldable pub after_dylib :
    (LanguageManager → Option LanguageManager)
    → LanguageManager × Result Text (Unit {0})
    → Option LanguageManager
after_dylib next (m, ok u) = next m
after_dylib next (m, err e) = next m
after_dylib next (m, panic) = none

unfoldable pub load_dylibs : (Text → Dylib) → List Text → LanguageManager → Option LanguageManager
unfolding after_dylib load_dylib
load_dylibs dylib [] m = some m
load_dylibs dylib (so ∷ sos) m = after_dylib (load_dylibs dylib sos) (load_dylib dylib so m)

-- `CommandHandler`, which has the engine: its languages and its configuration.
pub record CommandHandler : Type 0 where
  pub languages : LanguageManager
  pub config : JudgeEngineConfig

unfoldable pub with_languages : JudgeEngineConfig → Option LanguageManager → Option CommandHandler
with_languages config none = none
with_languages config (some m) = some (record { languages = m; config = config })

unfoldable pub with_config :
    (Text → Dylib) → List Text → Option JudgeEngineConfig → Option CommandHandler
unfolding with_languages load_dylibs
with_config dylib sos none = none
with_config dylib sos (some config) = with_languages config (load_dylibs dylib sos no_languages)

unfoldable pub new_handler :
    (Text → Option ℕ × ℕ)
    → (Text → Option ℕ)
    → (Text → Dylib)
    → AppEngineConfig
    → Option CommandHandler
unfolding with_config get_judge_engine_config
new_handler getpwnam resolve dylib app =
    with_config dylib app.language_dylibs (get_judge_engine_config getpwnam resolve app)

-- The server process and the machine; a server that has left its loop is not alive.
pub record Server (W : Type 0) : Type 0 where
  pub alive : Bool
  pub world : W

-- what the client's receive says of a server that sends nothing, of the pipe or of a temporary file
pub data ClientError : Type 0 where
  disconnected : ClientError
  io : IoError → ClientError

-- A call of the client; `none` is an answer that never comes.
abbrev pub Client : Type 0 → Type 0 → Type 0
Client W A = Server W → Option (Result ClientError A × Server W)

-- tempfile's NamedTempFile and tempdir, with the write of the source, and what their drops do
pub record TempFiles (W : Type 0) : Type 0 where
  pub source_file : Text → W → Result IoError Text × W
  pub temp_dir : W → Result IoError Text × W
  pub drop_file : Text → W → W
  pub drop_dir : Text → W → W

module _ {W : Type 0} (fl : Float64) (host : Host W) (m : LanguageManager)
    (config : JudgeEngineConfig) where
  unfoldable pub handle_cmd : Command → Engine W CommandResult
  unfolding continue
  handle_cmd (compile task) w =
      continue (λ r. answer_with (compiled r)) (engine_compile host m task w)
  handle_cmd (judge task) w =
      continue (λ r. answer_with (judged r)) (engine_judge fl host m config task w)

  -- One turn of fork_server_main: an error or a panic of the handler ends the loop, and the pipe.
  unfoldable pub served :
      Option (Result JudgeError CommandResult × W)
      → Option (Result ClientError CommandResult × Server W)
  served none = none
  served (some (ok r, w)) = some (ok r, record { alive = true; world = w })
  served (some (err e, w)) = some (err disconnected, record { alive = false; world = w })
  served (some (panic, w)) = some (err disconnected, record { alive = false; world = w })

  unfoldable pub exchange :
      Bool → Command → W → Option (Result ClientError CommandResult × Server W)
  unfolding handle_cmd served
  exchange true cmd w = served (handle_cmd cmd w)
  exchange false cmd w = some (err disconnected, record { alive = false; world = w })

  unfoldable pub execute_cmd : Command → Client W CommandResult
  unfolding exchange
  execute_cmd cmd s = exchange s.alive cmd s.world

  module _ (files : TempFiles W) where
    -- the drop of the directory and of the source file, in this order
    unfoldable pub cleaned :
        {A : Type 0}
        → Text
        → Text
        → Option (Result ClientError A × Server W)
        → Option (Result ClientError A × Server W)
    cleaned file dir none = none
    cleaned file dir (some (r, s)) =
        some (r, record s { world = files.drop_file file (files.drop_dir dir s.world) })

    unfoldable pub unwrap_as_compilation_result :
        Option (Result ClientError CommandResult × Server W)
        → Option (Result ClientError CompilationResult × Server W)
    unwrap_as_compilation_result none = none
    unwrap_as_compilation_result (some (ok (compiled r), s)) = some (ok r, s)
    unwrap_as_compilation_result (some (ok (judged r), s)) = some (panic, s)
    unwrap_as_compilation_result (some (err e, s)) = some (err e, s)
    unwrap_as_compilation_result (some (panic, s)) = some (panic, s)

    unfoldable pub compile_in :
        Text → LanguageIdentifier → ProgramKind → Text → Client W CompilationResult
    unfolding execute_cmd unwrap_as_compilation_result cleaned
    compile_in file lang kind dir s = cleaned file dir (
        unwrap_as_compilation_result (
          execute_cmd
            (compile (record (compilation_of (record { file = file; language = lang })) {
              output_dir = some dir;
              kind = kind;
            }))
            s))

    unfoldable pub with_dir :
        Text
        → LanguageIdentifier
        → ProgramKind
        → Bool
        → Result IoError Text × W
        → Option (Result ClientError CompilationResult × Server W)
    unfolding compile_in
    with_dir file lang kind up (ok dir, w) =
        compile_in file lang kind dir (record { alive = up; world = w })
    with_dir file lang kind up (err e, w) =
        some (err (io e), record { alive = up; world = files.drop_file file w })
    with_dir file lang kind up (panic, w) =
        some (panic, record { alive = up; world = files.drop_file file w })

    unfoldable pub with_file :
        LanguageIdentifier
        → ProgramKind
        → Bool
        → Result IoError Text × W
        → Option (Result ClientError CompilationResult × Server W)
    unfolding with_dir
    with_file lang kind up (ok file, w) = with_dir file lang kind up (files.temp_dir w)
    with_file lang kind up (err e, w) = some (err (io e), record { alive = up; world = w })
    with_file lang kind up (panic, w) = some (panic, record { alive = up; world = w })

    unfoldable pub compile_source :
        Text → LanguageIdentifier → ProgramKind → Client W CompilationResult
    unfolding with_file
    compile_source source lang kind s =
        with_file lang kind s.alive (files.source_file source s.world)
