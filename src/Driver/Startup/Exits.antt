-- ===== src/Driver/Startup/Exits.antt =====
-- When the process ends well.
use wave_judge.Prelude.{
  ℕ, zero, suc, ◌<◌, ◌≤◌, ◌≡◌, ◌↔◌, refl, Option, none, some, Text, Result, ok, err, panic, arith,
}
use wave_judge.Driver.Workers.Threads.{Ending, returned, WorkersError, num_workers, run}
use wave_judge.Driver.Workers.Threads.Ends.{run_iff}
use wave_judge.Driver.Startup.{
  InitError, AppContext, Machine, after_workers, after_init, do_main, exit_status,
}
use wave_judge.Driver.Startup.Straight.{straight, init-straight}

-- At least one worker is configured, and all of them but the last have returned.
abbrev pub AllReturned : (ℕ → Option Ending) → ℕ → Type 0
AllReturned ends workers =
    (0 < workers) × ((k : ℕ) → 1 ≤ k → k < num_workers workers → ends k ≡ some returned)

exit_status-zero :
    (r : Option (Result WorkersError (Unit {0})))
    → exit_status (after_workers r) ≡ some 0
    → r ≡ some (ok tt)
unfolding exit_status after_workers
exit_status-zero none h = cc h
exit_status-zero (some (ok u)) h = refl
exit_status-zero (some (err e)) h = absurd (ground arith)
exit_status-zero (some panic) h = absurd (ground arith)

run-zero : (ends : ℕ → Option Ending) → run ends 0 ≡ some (ok tt) → ⊥
unfolding run
run-zero ends h = cc h

run-AllReturned :
    (ends : ℕ → Option Ending) (workers : ℕ)
    → run ends workers ≡ some (ok tt)
    → AllReturned ends workers
run-AllReturned ends zero h = absurd (run-zero ends h)
run-AllReturned ends (suc n) h = (omega arith, (run_iff ends (suc n) (omega arith)).0 h)

module _ {W U K F D : Type 0} where
  -- A start that succeeded, with workers that end.
  abbrev pub EndsWell : (ℕ → Option Ending) → Result InitError (AppContext U K F D) × W → Type 0
  EndsWell ends x =
      (context : AppContext U K F D) × (w : W) × (x ≡ (ok context, w))
      × AllReturned ends context.config.workers

  ends-EndsWell :
      (ends : ℕ → Option Ending) (x : Result InitError (AppContext U K F D) × W)
      → exit_status (after_init ends x) ≡ some 0
      → EndsWell ends x
  unfolding after_init exit_status
  ends-EndsWell ends (ok context, w) h =
      (context, w, refl, run-AllReturned ends _ (exit_status-zero _ h))
  ends-EndsWell ends (err e, w) h = absurd (ground arith)
  ends-EndsWell ends (panic, w) h = absurd (ground arith)

  returned-zero :
      (ends : ℕ → Option Ending) (context : AppContext U K F D) (w : W)
      → AllReturned ends context.config.workers
      → exit_status (after_init ends (ok context, w)) ≡ some 0
  unfolding after_init after_workers exit_status
  returned-zero ends context w (some_worker, all) =
      rw ((run_iff ends context.config.workers some_worker).1 all) refl

  -- With the paths of both files, the process ends with the status 0 exactly when the steps of the
  -- start, in their order, have given a context with at least one worker, and every worker but the one
  -- with the last number has returned.
  pub do_main_iff :
      (machine : Machine W U K F D) (ends : ℕ → Option Ending) (log_path config_path : Text) (w : W)
      → (exit_status (do_main machine ends (some log_path) (some config_path) w) ≡ some 0)
        ↔ EndsWell ends (straight machine log_path config_path w)
  unfolding do_main
  do_main_iff machine ends log_path config_path w =
      rw (init-straight machine log_path config_path w) (
        ends-EndsWell ends _,
        λ (context, w', same, all). rw same (returned-zero ends context w' all),
      )
