-- ===== src/Driver/Workers/Threads/Ends.antt =====
-- Lemmas on `run` of driver/src/workers.rs and on the threads it joins.
use wave_judge.Prelude.{
  ℕ, zero, suc, ◌+◌, ◌-◌, ◌<◌, ◌≤◌, ◌==◌, ◌≡◌, ◌↔◌, ◌⊎◌, inl, inr, Bool-cases, ==_iff, subst, refl,
  arith, false, Option, none, some, Result, ok,
}
use wave_judge.Driver.Workers.Threads.{
  Ending, returned, panicked, WorkersError, num_workers, next_join, join_all, run,
}

le-cases : (a b : ℕ) → a ≤ b → (a ≡ b) ⊎ (a + 1 ≤ b)
le-cases a b h = elim (Bool-cases (a == b)) [
  | inl e ↦ inl ((==_iff a b).0 e)
  | inr e ↦ inr (ground arith)
]

next_join_iff :
    (id : ℕ) (rest : Option (Result WorkersError Unit)) (o : Option Ending)
    → (next_join id rest o ≡ some (ok tt)) ↔ ((o ≡ some returned) × (rest ≡ some (ok tt)))
unfolding next_join
next_join_iff id rest none = (λ h. cc h, λ (a, b). cc a)
next_join_iff id rest (some returned) = (λ h. (refl, h), λ (a, b). b)
next_join_iff id rest (some panicked) = (λ h. cc h, λ (a, b). cc a)

-- The joins of `left` workers from `id` on return exactly when each of them has returned.
join_all_iff :
    (ends : ℕ → Option Ending) (id left : ℕ)
    → (join_all ends id left ≡ some (ok tt))
      ↔ ((k : ℕ) → id ≤ k → k < id + left → ends k ≡ some returned)
unfolding join_all
join_all_iff ends id zero = (λ _ k le lt. absurd (omega arith), λ _. refl)
join_all_iff ends id (suc left) = (
  λ h k le lt.
      let (here, there) = (next_join_iff id (join_all ends (id + 1) left) (ends id)).0 h in
      elim (le-cases id k le) [
        | inl e ↦ subst (λ (n : ℕ). ends n ≡ some returned) e here
        | inr less ↦ (join_all_iff ends (id + 1) left).0 there k less (omega arith)
      ],
  λ all. (next_join_iff id (join_all ends (id + 1) left) (ends id)).1 (
    all id (omega arith) (omega arith),
    (join_all_iff ends (id + 1) left).1 (λ k le lt. all k (omega arith) (omega arith)),
  ),
)

num_workers-pos : (n : ℕ) → 0 < n → 0 < num_workers n
unfolding num_workers
num_workers-pos n h = ground arith

bounded :
    (ends : ℕ → Option Ending) (n : ℕ)
    → 0 < n
    → (join_all ends 1 (n - 1) ≡ some (ok tt)) ↔ ((k : ℕ) → 1 ≤ k → k < n → ends k ≡ some returned)
bounded ends n h = (
  λ joined k le lt. (join_all_iff ends 1 (n - 1)).0 joined k le (omega arith),
  λ all. (join_all_iff ends 1 (n - 1)).1 (λ k le lt. all k le (omega arith)),
)

run-joins :
    (ends : ℕ → Option Ending) (workers : ℕ)
    → 0 < workers
    → run ends workers ≡ join_all ends 1 (num_workers workers - 1)
unfolding run
run-joins ends workers h = let nonzero : (workers == 0) ≡ false = ground arith in rw nonzero refl

-- With at least one worker, `run` returns without an error exactly when every worker but the one with
-- the last number has returned.
pub run_iff :
    (ends : ℕ → Option Ending) (workers : ℕ)
    → 0 < workers
    → (run ends workers ≡ some (ok tt))
      ↔ ((k : ℕ) → 1 ≤ k → k < num_workers workers → ends k ≡ some returned)
run_iff ends workers h =
    rw (run-joins ends workers h) (bounded ends (num_workers workers) (num_workers-pos workers h))
