-- ===== src/Judge/Engine.antt =====
-- judge/src/engine/mod.rs: the configuration of an engine, how builders are made from it, and the
-- machine that the engine runs on. The machine's calls (`Host`) are a parameter.
pub mod Steps
pub mod Compiler
pub mod Executor
pub mod Judging
use wave_judge.Prelude.{
  ℕ, Bool, true, false, Option, none, some, List, [], ◌∷◌, ◌++◌, Text, codes, Result, ok, err,
  panic, if◌then◌else◌, map_err,
}
use wave_judge.Sandbox.Memory.{Duration, MemorySize}
use wave_judge.Sandbox.Usage.{Limits}
use wave_judge.Sandbox.Errors.{Error, Fallible}
use wave_judge.Sandbox.Daemon.{Round, Process, wait_for_exit}
use wave_judge.Sandbox.Builder.{Builder, SystemCall, new, add_arg, add_env, expect}
use wave_judge.Sandbox.Launch.{start_parent}
use wave_judge.Judge.Languages.{
  LanguageIdentifier, LanguageManager, LanguageProvider, ExecutionInfo, Program, ProgramKind, find,
}
use wave_judge.Judge.Tokens.{Block, IoError, device_read}
use wave_judge.Judge.Task.{JudgeError, sandbox, io, language_not_found, language_error}

pub record JudgeEngineConfig : Type 0 where
  pub judge_uid : Option ℕ
  pub judge_dir : Option Text
  pub judgee_syscall_whitelist : List SystemCall
  pub jury_cpu_time_limit : Option Duration
  pub jury_real_time_limit : Option Duration
  pub jury_memory_limit : Option MemorySize
  pub jury_syscall_whitelist : List SystemCall

-- `JudgeEngineConfig::new`.
abbrev pub new_config : JudgeEngineConfig
new_config = record {
  judge_uid = none;
  judge_dir = none;
  judgee_syscall_whitelist = [];
  jury_cpu_time_limit = none;
  jury_real_time_limit = none;
  jury_memory_limit = none;
  jury_syscall_whitelist = [];
}

-- The loops of `ExecutionInfo::build`.
unfoldable pub add_args : List Text → Builder → Fallible Builder
unfolding add_arg
add_args [] b = ok b
add_args (arg ∷ args) b = elim (add_arg arg b) [
  | ok b' ↦ add_args args b'
  | err e ↦ err e
  | panic ↦ panic
]

unfoldable pub add_envs : List (Text × Text) → Builder → Fallible Builder
unfolding add_env
add_envs [] b = ok b
add_envs ((name, value) ∷ envs) b = elim (add_env name value b) [
  | ok b' ↦ add_envs envs b'
  | err e ↦ err e
  | panic ↦ panic
]

-- The loops that push system calls on a builder's whitelist.
abbrev pub allow_syscalls : List SystemCall → Builder → Builder
allow_syscalls syscalls b = record b { syscall_whitelist = b.syscall_whitelist ++ syscalls }

unfoldable pub build : ExecutionInfo → Fallible Builder
unfolding new add_args add_envs
build info = elim (add_args info.args (new info.executable)) [
  | ok b ↦ elim (add_envs info.envs b) [
    | ok b' ↦ ok (allow_syscalls info.syscall_whitelist b')
    | err e ↦ err e
    | panic ↦ panic
  ]
  | err e ↦ err e
  | panic ↦ panic
]

-- `add_env("ONLINE_JUDGE", "YES").expect(..)`.
unfoldable pub online_judge : Builder → Fallible Builder
unfolding add_env
online_judge b = expect (add_env (codes "ONLINE_JUDGE") (codes "YES") b)

-- A value that is present replaces the one in place.
abbrev pub set_some : {A : Type 0} → Option A → Option A → Option A
set_some none old = old
set_some (some a) old = some a

unfoldable pub configured_judgee : JudgeEngineConfig → Builder → Builder
configured_judgee config b =
    allow_syscalls config.judgee_syscall_whitelist
      (record b { uid = set_some config.judge_uid b.uid })

unfoldable pub apply_judgee_bdr_config : JudgeEngineConfig → Builder → Fallible Builder
unfolding online_judge configured_judgee
apply_judgee_bdr_config config b = elim (online_judge b) [
  | ok b' ↦ ok (configured_judgee config b')
  | err e ↦ err e
  | panic ↦ panic
]

-- The CPU time limit is assigned when the configured one is absent, as the source has it.
unfoldable pub jury_cpu_time : Option Duration → Option Duration → Option Duration
jury_cpu_time none old = none
jury_cpu_time (some t) old = old

unfoldable pub configured_jury : JudgeEngineConfig → Builder → Builder
unfolding jury_cpu_time
configured_jury config b = allow_syscalls config.jury_syscall_whitelist (record b {
  limits = record {
    cpu_time_limit = jury_cpu_time config.jury_cpu_time_limit b.limits.cpu_time_limit;
    real_time_limit = set_some config.jury_real_time_limit b.limits.real_time_limit;
    memory_limit = set_some config.jury_memory_limit b.limits.memory_limit;
  };
})

unfoldable pub apply_jury_bdr_config : JudgeEngineConfig → Builder → Fallible Builder
unfolding online_judge configured_jury
apply_jury_bdr_config config b = elim (online_judge b) [
  | ok b' ↦ ok (configured_jury config b')
  | err e ↦ err e
  | panic ↦ panic
]

pub record TempFile : Type 0 where
  pub path : Text
  pub fd : ℕ

-- The machine: what the calls that the engine makes answer, from a state of the machine to the next.
-- A process that is spawned has run to its end when `spawn` gives what its daemon will see of it.
pub record Host (W : Type 0) : Type 0 where
  pub open_file : Text → W → Result IoError ℕ × W
  pub open_null : W → Fallible ℕ × W
  pub content : ℕ → W → List Block
  pub temp_file : Text → W → Result IoError TempFile × W
  pub temp_dir : Option Text → W → Result IoError Text × W
  pub dup : ℕ → W → Result IoError ℕ × W
  pub seek_start : ℕ → W → Result IoError (Unit {0}) × W
  pub pipe : W → Result IoError (ℕ × ℕ) × W
  pub read_to_string : ℕ → W → Result IoError Text × W
  pub spawn : Builder → W → Fallible (List Round) × W
  pub vars : List (Text × Text)
  pub lossy : Text → Text

-- A computation of the engine; `none` is one that waits for a process that does not end.
abbrev pub Judge : Type 0 → Type 0 → Type 0
Judge W A = W → Option (Result JudgeError A × W)

infixl 5 ◌>>=◌ ◌>>◌
unfoldable pub continue :
    {W A B : Type 0}
    → (A → Judge W B)
    → Option (Result JudgeError A × W)
    → Option (Result JudgeError B × W)
continue f none = none
continue f (some (ok a, w)) = f a w
continue f (some (err e, w)) = some (err e, w)
continue f (some (panic, w)) = some (panic, w)

abbrev pub ◌>>=◌ : {W A B : Type 0} → Judge W A → (A → Judge W B) → Judge W B
◌>>=◌ m f w = continue f (m w)

abbrev pub ◌>>◌ : {W B : Type 0} → Judge W (Unit {0}) → Judge W B → Judge W B
m >> k = m >>= λ _. k

abbrev pub pure : {W A : Type 0} → A → Judge W A
pure a w = some (ok a, w)

abbrev pub lift : {W A : Type 0} → Result JudgeError A → Judge W A
lift r w = some (r, w)

-- `expect` and `unwrap`.
abbrev pub must : {W A : Type 0} → Option A → Judge W A
must none w = some (panic, w)
must (some a) w = some (ok a, w)

abbrev pub from_sandbox : {W A : Type 0} → Fallible A → Judge W A
from_sandbox r = lift (map_err sandbox r)

-- A call of the machine, its error converted.
abbrev pub io_call : {W A : Type 0} → (W → Result IoError A × W) → Judge W A
io_call call w = some (map_err io (call w).0, (call w).1)

abbrev pub sandbox_call : {W A : Type 0} → (W → Fallible A × W) → Judge W A
sandbox_call call w = some (map_err sandbox (call w).0, (call w).1)

unfoldable pub waited : {W : Type 0} → Process × Option (Fallible (Unit {0})) → Judge W Process
waited (p, none) w = none
waited (p, some (ok u)) w = some (ok p, w)
waited (p, some (err e)) w = some (err (sandbox e), w)
waited (p, some panic) w = some (panic, w)

-- `start` and `wait_for_exit` of a process, one after the other as the engine calls them.
unfoldable pub run_process : {W : Type 0} → Host W → Builder → Judge W Process
unfolding start_parent wait_for_exit waited
run_process host b = do
  rounds ← sandbox_call (host.spawn b)
  waited (wait_for_exit (start_parent b rounds))

-- `read_file_view` and `read_to_string_lossy` of io.rs: one read of at most `max_len` bytes.
unfoldable pub read_file_view : {W : Type 0} → Host W → Text → ℕ → Judge W Text
unfolding device_read
read_file_view host path max_len = do
  fd ← io_call (host.open_file path)
  bytes ← io_call (λ w. ((device_read max_len (host.content fd w)).0, w))
  pure (elim bytes [ [] ↦ [] | x ∷ xs ↦ host.lossy (x ∷ xs) ])

abbrev pub ok_or_not_found :
    LanguageIdentifier → Option LanguageProvider → Result JudgeError LanguageProvider
ok_or_not_found lang none = err (language_not_found lang)
ok_or_not_found lang (some p) = ok p

unfoldable pub find_language_provider :
    LanguageManager → LanguageIdentifier → Result JudgeError LanguageProvider
unfolding find
find_language_provider m lang = ok_or_not_found lang (find lang m)
