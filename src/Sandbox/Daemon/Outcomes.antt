-- ===== src/Sandbox/Daemon/Outcomes.antt =====
-- How the daemon thread ends: what its result says of the child and of the limits.
use wave_judge.Prelude.{
  ℕ, ◌<◌, ◌≡◌, ◌≢◌, refl, subst, Bool, true, false, not, Option, none, some, List, [], ◌∷◌, ◌++◌,
  ok, err, panic, arith,
}
use wave_judge.Sandbox.Memory.{Duration}
use wave_judge.Sandbox.Usage.{
  Usage, Limits, ExitStatus, not_exited, normal, killed_by_signal, banned_syscall,
  cpu_time_limit_exceeded, real_time_limit_exceeded, memory_limit_exceeded, check_limits,
}
use wave_judge.Sandbox.Usage.Laws.{Explains, check_limits-Explains}
use wave_judge.Sandbox.Errors.{Fallible}
use wave_judge.Sandbox.Daemon.{
  WaitStatus, exited, signaled, running, Round, State, start, guard_wait, signal_result,
  wait_result, round, daemon_main, sigsys, sigusr1, Process, attach, wait_for_exit, limit_result,
  after_sample, after_wait, on_wait, settle, finish, elapsed_or_default,
}

-- A limit of the daemon was passed by the statistics that the context ends with.
abbrev pub LimitPassed : Option Limits → State → ExitStatus → Type 0
LimitPassed limits s status =
    (l : Limits) × (u : Usage) × (t : Duration) × (limits ≡ some l)
    × (s.rusage ≡ some u)
    × Explains l u t status

-- What each result says: after a report of the kernel the guard is released, and a status that
-- the limits lead to leaves it armed, so that its drop kills the child.
abbrev pub Ends : Option Limits → State → Fallible ExitStatus → Type 0
Ends limits s (ok not_exited) = ⊥
Ends limits s (ok (normal code)) = s.kill ≡ false
Ends limits s (ok (killed_by_signal n)) = (s.kill ≡ false) × (n ≢ sigsys) × (n ≢ sigusr1)
Ends limits s (ok banned_syscall) = s.kill ≡ false
Ends limits s (ok status) = (s.kill ≡ true) × LimitPassed limits s status
Ends limits s (err e) = Unit
Ends limits s panic = Unit

abbrev EndsIf : Option Limits → State → Option (Fallible ExitStatus) → Type 0
EndsIf limits s none = Unit
EndsIf limits s (some result) = Ends limits s result

settle-Ends :
    (limits : Option Limits) (now rest : State × Option (Fallible ExitStatus))
    (result : Fallible ExitStatus)
    → (now.1 ≡ some result → Ends limits now.0 result)
    → (now.1 ≡ none → rest.1 ≡ some result → Ends limits rest.0 result)
    → (settle now rest).1 ≡ some result
    → Ends limits (settle now rest).0 result
unfolding settle
settle-Ends limits (s, none) rest result here later h = later refl h
settle-Ends limits (s, some x) rest result here later h = here h

signal-Ends :
    (limits : Option Limits) (s : State) (n : ℕ) → s.kill ≡ false → Ends limits s (signal_result n)
unfolding signal_result
signal-Ends limits s n k = ground arith

check-Ends :
    (l : Limits) (s : State) (u : Usage) (t : Duration) (status : ExitStatus)
    → s.kill ≡ true
    → s.rusage ≡ some u
    → check_limits l u t ≡ some status
    → Ends (some l) s (ok status)
check-Ends l s u t cpu_time_limit_exceeded k e h =
    (k, (l, u, t, refl, e, check_limits-Explains l u t cpu_time_limit_exceeded h))
check-Ends l s u t real_time_limit_exceeded k e h =
    (k, (l, u, t, refl, e, check_limits-Explains l u t real_time_limit_exceeded h))
check-Ends l s u t memory_limit_exceeded k e h =
    (k, (l, u, t, refl, e, check_limits-Explains l u t memory_limit_exceeded h))
check-Ends l s u t not_exited k e h = check_limits-Explains l u t not_exited h
check-Ends l s u t (normal c) k e h = absurd (check_limits-Explains l u t (normal c) h)
check-Ends l s u t (killed_by_signal n) k e h =
    absurd (check_limits-Explains l u t (killed_by_signal n) h)
check-Ends l s u t banned_syscall k e h = absurd (check_limits-Explains l u t banned_syscall h)

limit-Ends :
    (limits : Option Limits) (s : State) (u : Usage) (t : Duration) (result : Fallible ExitStatus)
    → s.kill ≡ true
    → s.rusage ≡ some u
    → limit_result limits u t ≡ some result
    → Ends limits s result
unfolding limit_result
limit-Ends none s u t result k e h = cc
limit-Ends (some l) s u t (ok status) k e h = check-Ends l s u t status k e (ground arith)
limit-Ends (some l) s u t (err x) k e h = tt
limit-Ends (some l) s u t panic k e h = tt

update-Ends :
    (limits : Option Limits) (s : State) (t : Option Duration) (sample : Fallible Usage)
    (result : Fallible ExitStatus)
    → s.kill ≡ true
    → (after_sample limits s t sample).1 ≡ some result
    → Ends limits (after_sample limits s t sample).0 result
unfolding after_sample
update-Ends limits s t (ok u) result k h = limit-Ends limits _ _ _ result k refl h
update-Ends limits s t (err x) result k h = subst (λ o. EndsIf limits s o) h tt
update-Ends limits s t panic result k h = subst (λ o. EndsIf limits s o) h tt

wait-Ends :
    (limits : Option Limits) (s : State) (r : Round) (w : Fallible WaitStatus)
    (result : Fallible ExitStatus)
    → s.kill ≡ guard_wait w true
    → (on_wait limits s r w).1 ≡ some result
    → Ends limits (on_wait limits s r w).0 result
unfolding on_wait guard_wait
wait-Ends limits s r (ok (exited c)) result k h = subst (λ o. EndsIf limits s o) h k
wait-Ends limits s r (ok (signaled n)) result k h =
    subst (λ o. EndsIf limits s o) h (signal-Ends limits s n k)
wait-Ends limits s r (ok running) result k h = update-Ends limits s r.elapsed r.sample result k h
wait-Ends limits s r (err x) result k h = subst (λ o. EndsIf limits s o) h tt
wait-Ends limits s r panic result k h = subst (λ o. EndsIf limits s o) h tt

round-Ends :
    (limits : Option Limits) (s : State) (r : Round) (result : Fallible ExitStatus)
    → s.kill ≡ true
    → (round limits s r).1 ≡ some result
    → Ends limits (round limits s r).0 result
unfolding round
round-Ends limits s r result k h = wait-Ends limits _ r r.wait result (rw k) h

-- A round that does not end the loop leaves the guard armed.
wait-kill :
    (limits : Option Limits) (s : State) (r : Round) (w : Fallible WaitStatus)
    → s.kill ≡ guard_wait w true
    → (on_wait limits s r w).1 ≡ none
    → (on_wait limits s r w).0.kill ≡ true
unfolding on_wait guard_wait
wait-kill limits s r (ok (exited c)) k h = cc
wait-kill limits s r (ok (signaled n)) k h = cc
wait-kill limits s r (ok running) k h = ground arith
wait-kill limits s r (err x) k h = cc
wait-kill limits s r panic k h = cc

round-kill :
    (limits : Option Limits) (s : State) (r : Round)
    → s.kill ≡ true
    → (round limits s r).1 ≡ none
    → (round limits s r).0.kill ≡ true
unfolding round
round-kill limits s r k h = wait-kill limits _ r r.wait (rw k) h

-- When the loop starts with an armed guard and ends with a status, an exit, a signal or a banned
-- system call comes with a released guard, the signal being neither SIGSYS nor SIGUSR1; the status
-- of a limit comes with an armed guard and with statistics that pass that limit; and `NotExited`
-- never comes.
pub daemon_main-Ends :
    (limits : Option Limits) (s : State) (rounds : List Round) (result : Fallible ExitStatus)
    → s.kill ≡ true
    → (daemon_main limits s rounds).1 ≡ some result
    → Ends limits (daemon_main limits s rounds).0 result
unfolding daemon_main
daemon_main-Ends limits s [] result k h = cc
daemon_main-Ends limits s (r ∷ rs) result k h =
    settle-Ends limits (round limits s r) _ result (round-Ends limits s r result k)
      (λ e. daemon_main-Ends limits (round limits s r).0 rs result (round-kill limits s r k e)) h

-- The statuses that the kernel reports, as against those that the limits lead to.
abbrev pub reported : ExitStatus → Bool
reported (normal _) = true
reported (killed_by_signal _) = true
reported banned_syscall = true
reported _ = false

finish-status :
    (p : Process) (s : State) (result : Option (Fallible ExitStatus))
    → ((x : Fallible ExitStatus) → result ≡ some x → Ends p.limits s x)
    → (finish p s result).1 ≡ some (ok tt)
    → ((finish p s result).0.status ≢ not_exited)
      × ((finish p s result).0.killed ≡ not (reported (finish p s result).0.status))
      × ((finish p s result).0.daemon ≡ none)
unfolding finish
finish-status p s none ends h = cc
finish-status p s (some (ok not_exited)) ends h = absurd (ends _ refl)
finish-status p s (some (ok (normal c))) ends h = ground (arith, ends (ok (normal c)) refl)
finish-status p s (some (ok (killed_by_signal c))) ends h =
    ground (arith, ends (ok (killed_by_signal c)) refl)
finish-status p s (some (ok status)) ends h = ground (arith, ends (ok status) refl)
finish-status p s (some (err e)) ends h = cc
finish-status p s (some panic) ends h = cc

round-real_time :
    (l : Limits) (t e : Duration) (s : State) (r : Round)
    → l.real_time_limit ≡ some t
    → r.elapsed ≡ some e
    → t < e
    → (round (some l) s r).1 ≢ none
unfolding round on_wait wait_result after_wait after_sample limit_result check_limits
    elapsed_or_default
round-real_time l t e s r lim el h = ground arith

-- Under a real time limit the loop has ended, with some result, by the first round whose clock is
-- past the limit, whatever happened in the rounds before it.
pub daemon_main-real_time :
    (l : Limits) (t e : Duration) (s : State) (before : List Round) (r : Round) (after : List Round)
    → l.real_time_limit ≡ some t
    → r.elapsed ≡ some e
    → t < e
    → (daemon_main (some l) s (before ++ r ∷ after)).1 ≢ none
unfolding daemon_main settle
daemon_main-real_time l t e s [] r after lim el h =
    ground (arith, round-real_time l t e s r lim el h)
daemon_main-real_time l t e s (q ∷ before) r after lim el h =
    ground (arith, daemon_main-real_time l t e (round (some l) s q).0 before r after lim el h)

-- When `wait_for_exit` on a fresh process succeeds, the process has a status, which is not
-- `NotExited`, it was killed unless the kernel reported its end, and a second wait panics.
pub wait_for_exit-status :
    (limits : Option Limits) (rounds : List Round)
    → (wait_for_exit (attach limits rounds)).1 ≡ some (ok tt)
    → ((wait_for_exit (attach limits rounds)).0.status ≢ not_exited)
      × ((wait_for_exit (attach limits rounds)).0.killed
          ≡ not (reported (wait_for_exit (attach limits rounds)).0.status))
      × ((wait_for_exit (wait_for_exit (attach limits rounds)).0).1 ≡ some panic)
unfolding wait_for_exit attach
wait_for_exit-status limits rounds h =
    let facts =
      finish-status (attach limits rounds) (daemon_main limits start rounds).0
        (daemon_main limits start rounds).1 (λ x e. daemon_main-Ends limits start rounds x refl e)
        h in
    (facts.0, facts.1, rw (facts.2, wait_for_exit) refl)
