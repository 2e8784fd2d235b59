-- ===== src/Sandbox/Errors.antt =====
-- sandbox/src/lib.rs: the error kinds of the sandbox crate. A code of the operating system is its
-- number.
use wave_judge.Prelude.{ℕ, Text, Result}

pub data Error : Type 0 where
  io nix seccomp : (code : ℕ) → Error
  file_not_found : Text → Error
  invalid_process_argument : Error
  invalid_environment_variable : Error
  invalid_system_call_name : Error
  child_startup_failed : Error
  daemon_failed : Error

abbrev pub Fallible : Type 0 → Type 0
Fallible = Result Error
