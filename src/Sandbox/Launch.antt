-- ===== src/Sandbox/Launch.antt =====
-- sandbox/src/lib.rs, `start_child` and the `apply_*` functions, and `expand_path` of misc.rs: what
-- the child does between `fork` and `execve`.
pub mod Plan
pub mod Privileges
use wave_judge.Prelude.{
  ℕ, ◌/◌, ◌==◌, Bool, true, false, not, Option, none, some, List, [], ◌∷◌, ◌++◌, map, Text, codes,
  ok, err, panic, if◌then◌else◌,
}
use wave_judge.Sandbox.Memory.{Duration, MemorySize, bytes}
use wave_judge.Sandbox.Usage.{Limits}
use wave_judge.Sandbox.Errors.{Error, Fallible, file_not_found}
use wave_judge.Sandbox.Kernel.{
  Os, Call, Child, Action, allow, continue, ◌>>=◌, ◌>>◌, pure, lift, perform, dup_and_cloexec,
  setrlimit_hard, apply_syscall_filters, setuid, chdir, chroot, execve, cpu_time, address_space,
}
use wave_judge.Sandbox.Daemon.{Process, Round, attach}
use wave_judge.Sandbox.Builder.{Builder, Redirection, Directory, SystemCall, is_valid_c_string}

-- The parts of a text with one more byte in front, which is the separator or not.
unfoldable pub split_at : Bool → ℕ → List Text → List Text
split_at true x parts = [] ∷ parts
split_at false x [] = (x ∷ []) ∷ []
split_at false x (p ∷ parts) = (x ∷ p) ∷ parts

-- `str::split` at a byte; there is always a first part.
unfoldable pub split : ℕ → Text → List Text
unfolding split_at
split sep [] = [] ∷ []
split sep (x ∷ xs) = split_at (x == sep) x (split sep xs)

unfoldable pub ends_with_slash : Text → Bool
ends_with_slash [] = false
ends_with_slash (x ∷ []) = x == b'/'
ends_with_slash (x ∷ y ∷ s) = ends_with_slash (y ∷ s)

-- `PathBuf::push` of a relative path.
unfoldable pub push_path : Text → Text → Text
unfolding ends_with_slash
push_path [] path = path
push_path (x ∷ base) path =
    if ends_with_slash (x ∷ base) then (x ∷ base) ++ path else (x ∷ base) ++ (b'/' ∷ path)

unfoldable pub is_absolute : Text → Bool
is_absolute [] = false
is_absolute (x ∷ s) = x == b'/'

-- The loop of `expand_path` over the directories of `PATH`.
unfoldable pub find_in : (Text → Bool) → Text → List Text → Option Text
unfolding push_path
find_in exists path [] = none
find_in exists path (dir ∷ dirs) =
    if exists (push_path dir path) then some (push_path dir path) else find_in exists path dirs

unfoldable pub find_in_env : (Text → Bool) → Text → Option Text → Option Text
unfolding find_in split
find_in_env exists path none = none
find_in_env exists path (some env) = find_in exists path (split b':' env)

unfoldable pub expand_path : Os → Text → Option Text
unfolding is_absolute find_in_env
expand_path os path =
    if os.exists path
    then some path
    else if is_absolute path
    then none
    else find_in_env os.exists path os.path_env

-- `if x.is_some() { action(x.unwrap()) }`.
abbrev pub when_some : {A : Type 0} → Option A → (A → Child Unit) → Child Unit
when_some none action = pure tt
when_some (some a) action = action a

unfoldable pub apply_redirections : Os → Redirection → Child Unit
unfolding dup_and_cloexec
apply_redirections os r = do
  when_some r.stdin (λ fd. dup_and_cloexec os fd 0)
  when_some r.stdout (λ fd. dup_and_cloexec os fd 1)
  when_some r.stderr (λ fd. dup_and_cloexec os fd 2)
  pure tt

unfoldable pub apply_uid : Os → Option ℕ → Child Unit
unfolding perform
apply_uid os uid = do when_some uid (λ u. perform os (setuid u)); pure tt

unfoldable pub apply_directories : Os → Directory → Child Unit
unfolding perform
apply_directories os dir = do
  when_some dir.working_dir (λ d. perform os (chdir d))
  when_some dir.root_dir (λ d. perform os (chroot d))
  pure tt

-- `Duration::as_secs`.
abbrev pub as_secs : Duration → ℕ
as_secs d = d / 1000000000

unfoldable pub apply_native_rlimits : Os → Bool → Limits → Child Unit
unfolding setrlimit_hard
apply_native_rlimits os false limits = pure tt
apply_native_rlimits os true limits = do
  when_some limits.cpu_time_limit (λ t. setrlimit_hard os cpu_time (as_secs t))
  when_some limits.memory_limit (λ m. setrlimit_hard os address_space (bytes m))
  pure tt

abbrev pub allowed : SystemCall → ℕ × Action
allowed syscall = (syscall.id, allow)

unfoldable pub apply_seccomp : Os → List SystemCall → Child Unit
unfolding apply_syscall_filters
apply_seccomp os [] = pure tt
apply_seccomp os (s ∷ whitelist) = do
  apply_syscall_filters os (map allowed (s ∷ whitelist))
  pure tt

-- `CString::new(s).unwrap()`.
unfoldable pub c_string : Text → Fallible Text
unfolding is_valid_c_string
c_string s = if is_valid_c_string s then ok s else panic

unfoldable pub c_strings : List Text → Fallible (List Text)
unfolding c_string
c_strings [] = ok []
c_strings (s ∷ ss) = elim (c_string s) [
  | ok s' ↦ elim (c_strings ss) [ ok ss' ↦ ok (s' ∷ ss') | err e ↦ err e | panic ↦ panic ]
  | err e ↦ err e
  | panic ↦ panic
]

-- `format!("{}={}", env.0, env.1)`.
abbrev pub env_text : Text × Text → Text
env_text (name, value) = name ++ (b'=' ∷ value)

abbrev pub or_not_found : Text → Option Text → Fallible Text
or_not_found path none = err (file_not_found path)
or_not_found path (some file) = ok file

unfoldable pub start_child : Os → Builder → Child Unit
unfolding expand_path c_string c_strings apply_redirections apply_uid apply_directories
    apply_native_rlimits apply_seccomp perform
start_child os b = do
  exec_file ← lift (or_not_found b.file (expand_path os b.file))
  native_file ← lift (c_string exec_file)
  native_argv ← lift (c_strings b.args)
  native_envs ← lift (c_strings (map env_text b.envs))
  apply_redirections os b.redirections
  apply_uid os b.uid
  apply_directories os b.dir
  apply_native_rlimits os b.use_native_rlimit b.limits
  apply_seccomp os b.syscall_whitelist
  perform os (execve native_file native_argv native_envs)

-- `start_parent`: the daemon watches the limits unless the kernel does.
unfoldable pub start_parent : Builder → List Round → Process
unfolding attach
start_parent b rounds = attach (if b.use_native_rlimit then none else some b.limits) rounds
