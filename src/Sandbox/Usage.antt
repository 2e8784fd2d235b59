-- ===== src/Sandbox/Usage.antt =====
-- sandbox/src/lib.rs: `ProcessResourceUsage` and `ProcessResourceLimits`, and
-- sandbox/src/daemon.rs: `daemon_check_limits`.
pub mod Laws
use wave_judge.Prelude.{ℕ, ◌+◌, Bool, ltb, Option, none, some, if◌then◌else◌, false}
use wave_judge.Sandbox.Memory.{Duration, MemorySize, bytes_of, size_gt}

pub record Usage : Type 0 where
  pub user_cpu_time : Duration
  pub kernel_cpu_time : Duration
  pub virtual_mem_size : MemorySize
  pub resident_set_size : MemorySize

-- `ProcessResourceUsage::new` and its `Default`.
abbrev pub no_usage : Usage
no_usage = record {
  user_cpu_time = 0;
  kernel_cpu_time = 0;
  virtual_mem_size = bytes_of 0;
  resident_set_size = bytes_of 0;
}

-- The sum of two `Duration`s panics above 2^64 seconds, which no process reaches.
unfoldable pub cpu_time : Usage → Duration
cpu_time u = u.user_cpu_time + u.kernel_cpu_time

-- `update`: each field is overwritten where the other one is greater.
unfoldable pub update : Usage → Usage → Usage
unfolding size_gt
update self other = record {
  user_cpu_time =
      if ltb self.user_cpu_time other.user_cpu_time
      then other.user_cpu_time
      else self.user_cpu_time;
  kernel_cpu_time =
      if ltb self.kernel_cpu_time other.kernel_cpu_time
      then other.kernel_cpu_time
      else self.kernel_cpu_time;
  virtual_mem_size =
      if size_gt other.virtual_mem_size self.virtual_mem_size
      then other.virtual_mem_size
      else self.virtual_mem_size;
  resident_set_size =
      if size_gt other.resident_set_size self.resident_set_size
      then other.resident_set_size
      else self.resident_set_size;
}

pub record Limits : Type 0 where
  pub cpu_time_limit : Option Duration
  pub real_time_limit : Option Duration
  pub memory_limit : Option MemorySize

-- `ProcessResourceLimits::empty` and its `Default`.
abbrev pub no_limits : Limits
no_limits = record { cpu_time_limit = none; real_time_limit = none; memory_limit = none }

pub data ExitStatus : Type 0 where
  not_exited : ExitStatus
  normal : (exit_code : ℕ) → ExitStatus
  killed_by_signal : (signal : ℕ) → ExitStatus
  cpu_time_limit_exceeded : ExitStatus
  real_time_limit_exceeded : ExitStatus
  memory_limit_exceeded : ExitStatus
  banned_syscall : ExitStatus

unfoldable pub exit_code : ExitStatus → Option ℕ
exit_code (normal code) = some code
exit_code _ = none

-- `limit.is_some() && used > limit.unwrap()`, for a time and for a size.
abbrev pub over_time : Option Duration → Duration → Bool
over_time none used = false
over_time (some limit) used = ltb limit used

unfoldable pub over_memory : Option MemorySize → MemorySize → Bool
unfolding size_gt
over_memory none used = false
over_memory (some limit) used = size_gt used limit

unfoldable pub check_limits : Limits → Usage → Duration → Option ExitStatus
unfolding over_memory cpu_time
check_limits limits usage elapsed =
    if over_time limits.cpu_time_limit (cpu_time usage)
    then some cpu_time_limit_exceeded
    else if over_time limits.real_time_limit elapsed
    then some real_time_limit_exceeded
    else if over_memory limits.memory_limit usage.virtual_mem_size
    then some memory_limit_exceeded
    else none
