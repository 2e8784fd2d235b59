-- ===== src/Driver/Tests/Locks.antt =====
-- Two threads on one key, a third one's key apart.
use wave_judge.Prelude.{ℕ, ◌≡◌, ◌↔◌, ◌⊎◌, refl, none, some, arith}
use native.Mathlib.Decide.{ℕ_discrete}
use wave_judge.Driver.Sync.{
  put, KeyLock, new_lock, new_entry, increment, joined, join, leave, acting, panicked, outside,
  unlocked, System, call, lock, returns, pick, initial, Reach, start, later,
}
use wave_judge.Driver.Sync.Counting.{using}
use wave_judge.Driver.Sync.Exclusion.{mutual_exclusion, waits_for_own_key, last_user_removes}

abbrev Run : Type 0
Run = (s : System ℕ) × Reach ℕ_discrete 2 s

-- both threads have called for the key 7, and thread 0 is in its action
unfoldable contended : Run
unfolding join joined initial new_lock put increment new_entry ℕ_discrete
contended = (
  _,
  later
      (later (later start (pick 0 (omega arith) (call 7 refl)))
        (pick 1 (omega arith) (call 7 refl)))
      (pick 0 (omega arith) (lock refl)),
)

mutual_exclusion_example : ◌≡◌ {A = ℕ} 0 0
unfolding contended
mutual_exclusion_example = mutual_exclusion ℕ_discrete (omega arith) contended.1 0 0 0 0 7 refl refl

waits_for_own_key_example :
    (contended.0.mutex 0 ≡ unlocked)
    ⊎ (((j : ℕ) × (contended.0.phase j ≡ acting 7 0))
        ⊎ ((j : ℕ) × (contended.0.phase j ≡ panicked 7 0)))
unfolding contended
waits_for_own_key_example = waits_for_own_key ℕ_discrete (omega arith) contended.1 1 0 7 refl

-- thread 0 has finished its action
unfoldable returned : Run
unfolding contended put ℕ_discrete join joined initial new_lock
returned = (_, later contended.1 (pick 0 (omega arith) returns))

last_user_removes_example :
    (t : KeyLock ℕ) × (leave ℕ_discrete 7 returned.0.lock ≡ some t)
    × ((t.keys 7 ≡ none)
        ↔ ((j : ℕ) → using ℕ_discrete 7 (put ℕ_discrete returned.0.phase 0 outside j) ≡ 0))
unfolding returned
last_user_removes_example = last_user_removes ℕ_discrete (omega arith) returned.1 0 0 7 refl
