-- ===== src/Sandbox/Daemon.antt =====
-- sandbox/src/daemon.rs, and `Process` of sandbox/src/lib.rs: the thread that waits for a child,
-- samples its resource usage and kills it. What the kernel answers, round by round, is an input.
pub mod Outcomes
use wave_judge.Prelude.{
  ℕ, Bool, true, false, not, Option, none, some, List, [], ◌∷◌, Result, ok, err, panic, ◌==◌,
  if◌then◌else◌,
}
use wave_judge.Sandbox.Memory.{Duration}
use wave_judge.Sandbox.Usage.{
  Usage, Limits, ExitStatus, not_exited, normal, killed_by_signal, banned_syscall, check_limits,
  update, no_usage,
}
use wave_judge.Sandbox.Errors.{Error, child_startup_failed, daemon_failed, Fallible}

-- What `waitpid` reports; `running` stands for `StillAlive` and the stop and continue reports.
pub data WaitStatus : Type 0 where
  exited : (exit_code : ℕ) → WaitStatus
  signaled : (signal : ℕ) → WaitStatus
  running : WaitStatus

abbrev pub sigusr1 : ℕ
sigusr1 = 10

abbrev pub sigsys : ℕ
sigsys = 31

-- The kernel's answers to one round of the loop: `waitpid`, /proc/<pid>/stat and the clock, which
-- fails when it was set back.
pub record Round : Type 0 where
  pub wait : Fallible WaitStatus
  pub sample : Fallible Usage
  pub elapsed : Option Duration

-- The loop's state: the statistics in the shared context, and the guard's `kill`.
pub record State : Type 0 where
  pub rusage : Option Usage
  pub kill : Bool

-- `ProcessDaemonContext::new` and `WaitPidGuard::new`.
abbrev pub start : State
start = record { rusage = none; kill = true }

-- `WaitPidGuard::wait`: a report that the process is gone releases the guard.
unfoldable pub guard_wait : Fallible WaitStatus → Bool → Bool
guard_wait (ok (exited _)) kill = false
guard_wait (ok (signaled _)) kill = false
guard_wait _ kill = kill

unfoldable pub signal_result : ℕ → Fallible ExitStatus
signal_result s =
    if s == sigsys
    then ok banned_syscall
    else if s == sigusr1
    then err child_startup_failed
    else ok (killed_by_signal s)

-- The `match` on the wait status; `none` goes on with the round.
unfoldable pub wait_result : WaitStatus → Option (Fallible ExitStatus)
unfolding signal_result
wait_result (exited code) = some (ok (normal code))
wait_result (signaled s) = some (signal_result s)
wait_result running = none

-- `daemon_update_rusage`, on the statistics so far.
unfoldable pub update_rusage : Option Usage → Usage → Usage
update_rusage none sample = sample
update_rusage (some old) sample = update old sample

unfoldable pub elapsed_or_default : Option Duration → Duration
elapsed_or_default none = 0
elapsed_or_default (some t) = t

unfoldable pub limit_result : Option Limits → Usage → Duration → Option (Fallible ExitStatus)
limit_result none usage t = none
limit_result (some limits) usage t = elim (check_limits limits usage t) [
  | none ↦ none
  | some status ↦ some (ok status)
]

-- The rest of a round after the wait: sample, then check.
unfoldable pub after_sample :
    Option Limits → State → Option Duration → Fallible Usage → State × Option (Fallible ExitStatus)
unfolding update_rusage limit_result elapsed_or_default
after_sample limits s elapsed (ok sample) =
    let usage = update_rusage s.rusage sample in
    (record s { rusage = some usage }, limit_result limits usage (elapsed_or_default elapsed))
after_sample limits s elapsed (err e) = (s, some (err e))
after_sample limits s elapsed panic = (s, some panic)

unfoldable pub after_wait :
    Option Limits
    → State
    → Round
    → Option (Fallible ExitStatus)
    → State × Option (Fallible ExitStatus)
unfolding after_sample
after_wait limits s r (some result) = (s, some result)
after_wait limits s r none = after_sample limits s r.elapsed r.sample

unfoldable pub on_wait :
    Option Limits → State → Round → Fallible WaitStatus → State × Option (Fallible ExitStatus)
unfolding wait_result after_wait
on_wait limits s r (ok status) = after_wait limits s r (wait_result status)
on_wait limits s r (err e) = (s, some (err e))
on_wait limits s r panic = (s, some panic)

-- One round of the loop of `daemon_main`.
unfoldable pub round : Option Limits → State → Round → State × Option (Fallible ExitStatus)
unfolding guard_wait on_wait
round limits s r = on_wait limits (record s { kill = guard_wait r.wait s.kill }) r r.wait

-- A round without a result goes on with the rest of the loop.
unfoldable pub settle :
    State × Option (Fallible ExitStatus)
    → State × Option (Fallible ExitStatus)
    → State × Option (Fallible ExitStatus)
settle (s, none) rest = rest
settle (s, some result) rest = (s, some result)

-- The loop; `none` says that the rounds given so far have not ended it.
unfoldable pub daemon_main :
    Option Limits → State → List Round → State × Option (Fallible ExitStatus)
unfolding round settle
daemon_main limits s [] = (s, none)
daemon_main limits s (r ∷ rs) =
    settle (round limits s r) (daemon_main limits (round limits s r).0 rs)

-- `Process`: the shared context, and the thread's join handle until it is taken. The thread is the
-- rounds that it will see.
pub record Process : Type 0 where
  pub limits : Option Limits
  pub status : ExitStatus
  pub usage : Option Usage
  pub killed : Bool
  pub daemon : Option (List Round)

-- `Process::attach`.
unfoldable pub attach : Option Limits → List Round → Process
attach limits rounds = record {
  limits = limits;
  status = not_exited;
  usage = none;
  killed = false;
  daemon = some rounds;
}

-- The thread's end: a result is stored, and an error panics the thread, which `join` reports. The
-- guard is dropped in both cases.
unfoldable pub finish :
    Process → State → Option (Fallible ExitStatus) → Process × Option (Fallible Unit)
finish p s none = (record p { usage = s.rusage; daemon = none }, none)
finish p s (some (ok status)) =
    (record p { status = status; usage = s.rusage; killed = s.kill; daemon = none }, some (ok tt))
finish p s (some _) =
    (record p { usage = s.rusage; killed = s.kill; daemon = none }, some (err daemon_failed))

-- `wait_for_exit`: a second call panics. `none` is a thread that has not ended.
unfoldable pub wait_for_exit : Process → Process × Option (Fallible Unit)
unfolding daemon_main finish
wait_for_exit p = elim p.daemon [
  | none ↦ (p, some panic)
  | some rounds ↦ let (s, result) = daemon_main p.limits start rounds in finish p s result
]

-- `Process::rusage`.
unfoldable pub rusage : Process → Usage
rusage p = elim p.usage [ none ↦ no_usage | some u ↦ u ]
