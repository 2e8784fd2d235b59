-- ===== src/Sandbox/Builder.antt =====
-- sandbox/src/lib.rs: `ProcessBuilder` and its memento. Texts and paths are their bytes.
pub mod Laws
use wave_judge.Prelude.{
  ℕ, ◌/◌, Bool, true, false, not, ◌||◌, Option, none, some, List, [], ◌∷◌, ◌++◌, map, Text, codes,
  contains, ok, err, panic, if◌then◌else◌,
}
use wave_judge.Sandbox.Memory.{Duration, MemorySize, bytes}
use wave_judge.Sandbox.Usage.{Limits, no_limits}
use wave_judge.Sandbox.Errors.{
  Error, Fallible, file_not_found, invalid_process_argument, invalid_environment_variable,
  invalid_system_call_name,
}

-- `is_valid_c_string` of misc.rs.
unfoldable pub is_valid_c_string : Text → Bool
unfolding contains
is_valid_c_string s = not (contains 0 s)

-- `SystemCall`; an id that libseccomp resolves is not negative.
pub record SystemCall : Type 0 where
  pub name : Text
  pub id : ℕ

resolved : Text → Option ℕ → Fallible SystemCall
resolved name none = err invalid_system_call_name
resolved name (some id) = ok (record { name = name; id = id })

-- `SystemCall::from_name`; `resolve` is `seccomp_syscall_resolve_name`, `none` its negative answers.
unfoldable pub from_name : (Text → Option ℕ) → Text → Fallible SystemCall
unfolding is_valid_c_string resolved
from_name resolve name =
    if is_valid_c_string name then resolved name (resolve name) else err invalid_system_call_name

-- A file that a standard stream is redirected to is its descriptor.
pub record Redirection : Type 0 where
  pub stdin : Option ℕ
  pub stdout : Option ℕ
  pub stderr : Option ℕ

abbrev pub no_redirection : Redirection
no_redirection = record { stdin = none; stdout = none; stderr = none }

pub record Directory : Type 0 where
  pub working_dir : Option Text
  pub root_dir : Option Text

abbrev pub no_directory : Directory
no_directory = record { working_dir = none; root_dir = none }

pub record Builder : Type 0 where
  pub file : Text
  pub args : List Text
  pub envs : List (Text × Text)
  pub dir : Directory
  pub limits : Limits
  pub use_native_rlimit : Bool
  pub uid : Option ℕ
  pub syscall_whitelist : List SystemCall
  pub redirections : Redirection

-- `ProcessBuilder::new`: the path is the first argument.
unfoldable pub new : Text → Builder
new file = record {
  file = file;
  args = file ∷ [];
  envs = [];
  dir = no_directory;
  limits = no_limits;
  use_native_rlimit = false;
  uid = none;
  syscall_whitelist = [];
  redirections = no_redirection;
}

unfoldable pub add_arg : Text → Builder → Fallible Builder
unfolding is_valid_c_string
add_arg arg b =
    if is_valid_c_string arg
    then ok (record b { args = b.args ++ arg ∷ [] })
    else err invalid_process_argument

-- `add_env`; an equal sign is only logged.
unfoldable pub add_env : Text → Text → Builder → Fallible Builder
unfolding is_valid_c_string
add_env name value b =
    if not (is_valid_c_string name)
    then err invalid_environment_variable
    else if not (is_valid_c_string value)
    then err invalid_environment_variable
    else ok (record b { envs = b.envs ++ (name, value) ∷ [] })

-- `expect` on a result.
abbrev pub expect : Fallible Builder → Fallible Builder
expect (ok b) = ok b
expect _ = panic

-- `inherit_envs`, over the variables of the calling process.
unfoldable pub inherit_envs : List (Text × Text) → Builder → Fallible Builder
unfolding add_env
inherit_envs [] b = ok b
inherit_envs ((name, value) ∷ vars) b = elim (expect (add_env name value b)) [
  | ok b' ↦ inherit_envs vars b'
  | err e ↦ panic
  | panic ↦ panic
]

pub record Memento : Type 0 where
  pub file : Text
  pub args : List Text
  pub envs : List (Text × Text)
  pub dir : Directory
  pub limits : Limits
  pub use_native_rlimit : Bool
  pub uid : Option ℕ
  pub syscall_whitelist : List SystemCall

-- `memento` and the conversion from a builder.
unfoldable pub memento : Builder → Memento
memento b = record {
  file = b.file;
  args = b.args;
  envs = b.envs;
  dir = b.dir;
  limits = b.limits;
  use_native_rlimit = b.use_native_rlimit;
  uid = b.uid;
  syscall_whitelist = b.syscall_whitelist;
}

-- `restore` and the conversion to a builder.
unfoldable pub restore : Memento → Builder
restore m = record {
  file = m.file;
  args = m.args;
  envs = m.envs;
  dir = m.dir;
  limits = m.limits;
  use_native_rlimit = m.use_native_rlimit;
  uid = m.uid;
  syscall_whitelist = m.syscall_whitelist;
  redirections = no_redirection;
}
