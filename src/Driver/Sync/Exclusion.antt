-- ===== src/Driver/Sync/Exclusion.antt =====
-- What the lock promises to the threads that run lock_and_execute on it.
use wave_judge.Prelude.{
  ℕ, ◌^◌, ◌<◌, ◌≡◌, ◌≢◌, ◌↔◌, ◌⊎◌, inl, inr, refl, sym, subst, none, some, Option-cases, arith,
}
use native.Mathlib.Decide.{ℕ_discrete}
use wave_judge.Driver.Sync.Counting.{using, tally-zero}
use wave_judge.Driver.Sync.Table.{count_of, mutex_of}
use wave_judge.Driver.Sync.Invariant.{held_mutex, Reach-Inv, leave-some}
use wave_judge.Driver.Sync.{
  put, KeyLock, Phase, outside, waiting, acting, leaving, panicked, Mutex, unlocked, locked_by,
  poisoned, System, leave, Move, lock, exit, Step, pick, Reach, later,
}

module _ {K : Type 0} (same : Discrete K) where
  -- a thread without a mutex of the key
  unused : (k : K) (p : Phase K) → ((x : ℕ) → held_mutex p ≢ some (k, x)) → using same k p ≡ 0
  unfolding using held_mutex
  unused k outside h = refl
  unused k (waiting l x) h = ground (arith, h x)
  unused k (acting l x) h = ground (arith, h x)
  unused k (leaving l x) h = ground (arith, h x)
  unused k (panicked l x) h = ground (arith, h x)

module _ {K : Type 0} (same : Discrete K) {n : ℕ} {s : System K} where
  -- With fewer than 2 ^ 32 threads, two threads are never in their actions on the same key.
  pub mutual_exclusion :
      n < 2 ^ 32
      → Reach same n s
      → (i j x y : ℕ) (k : K) → s.phase i ≡ acting k x
      → s.phase j ≡ acting k y
      → i ≡ j
  unfolding held_mutex
  mutual_exclusion few r i j x y k at also =
      ground (arith, known i x k, known j y k, owned i x k at, owned j y k also)
    where
      open (Reach-Inv same few r) use {known, owned}

  -- A thread that waits at a key finds the mutex unlocked, or a thread that is in its action on the
  -- same key, or one that has panicked at the same key: other keys never hold it up.
  pub waits_for_own_key :
      n < 2 ^ 32
      → Reach same n s
      → (i x : ℕ) (k : K) → s.phase i ≡ waiting k x
      → (s.mutex x ≡ unlocked)
        ⊎ (((j : ℕ) × (s.phase j ≡ acting k x)) ⊎ ((j : ℕ) × (s.phase j ≡ panicked k x)))
  unfolding held_mutex
  waits_for_own_key few r i x k at = by_mutex (s.mutex x) refl
    where
      open (Reach-Inv same few r) use {table, known, owner, culprit}

      by_mutex :
          (m : Mutex)
          → s.mutex x ≡ m
          → (s.mutex x ≡ unlocked)
            ⊎ (((j : ℕ) × (s.phase j ≡ acting k x)) ⊎ ((j : ℕ) × (s.phase j ≡ panicked k x)))
      by_mutex unlocked e = inl e
      by_mutex (locked_by j) e =
          let (l, there) = owner j x e in
          inr (inl (j, ground (arith, known i x k, known j x l, table.apart k l x)))
      by_mutex poisoned e =
          let (j, l, there) = culprit x e in
          inr (inr (j, ground (arith, known i x k, known j x l, table.apart k l x)))

  -- A key has an entry in the table exactly while some thread is inside lock_and_execute on it.
  pub entry_while_used :
      n < 2 ^ 32
      → Reach same n s
      → (k : K) → (s.lock.keys k ≡ none) ↔ ((i : ℕ) → using same k (s.phase i) ≡ 0)
  unfolding count_of mutex_of held_mutex
  entry_while_used few r k = (
    λ e i. unused same k (s.phase i) (λ x holds. ground (arith, known i x k holds)),
    λ idle_all. elim (Option-cases (s.lock.keys k)) [
      | inl gone ↦ gone
      | inr (e, there) ↦ absurd (
          ground (
            arith,
            table.counted k,
            table.live k e.mtx,
            tally-zero (using same k) n s.phase idle_all,
          ))
    ],
  )
    where
      open (Reach-Inv same few r) use {table, known}

module _ {K : Type 0} (same : Discrete K) {n : ℕ} {s : System K} where
  -- A thread that has finished its action finds the entry to count down, and removes it exactly
  -- when no thread is left on the key.
  pub last_user_removes :
      n < 2 ^ 32
      → Reach same n s
      → (i x : ℕ) (k : K) → s.phase i ≡ leaving k x
      → (t : KeyLock K) × (leave same k s.lock ≡ some t)
        × ((t.keys k ≡ none) ↔ ((j : ℕ) → using same k (put ℕ_discrete s.phase i outside j) ≡ 0))
  unfolding leave held_mutex
  last_user_removes few r i x k at =
      let (lt, t, e) = leave-some same (Reach-Inv same few r) i x k at in
      (t, e, entry_while_used same few (later r (pick i lt (exit_at at e))) k)
    where
      exit_at :
          {p : Phase K} {t : KeyLock K}
          → p ≡ leaving k x
          → leave same k s.lock ≡ some t
          → Move same i s.lock s.mutex p t s.mutex outside
      exit_at {t} e g =
          subst (λ p. Move same i s.lock s.mutex p t s.mutex outside) {x = leaving k x} {y = _}
            (sym e) (exit g)

  -- Once a thread has panicked at a key, in its action or at the poisoned mutex, no thread is in
  -- its action on the key, and the thread that panicked stays so after every step.
  pub panic_ends_key :
      n < 2 ^ 32
      → Reach same n s
      → (i j x y : ℕ) (k : K) → s.phase i ≡ panicked k x
      → {t : System K} → Step same n s t
      → (s.phase j ≢ acting k y) × (t.phase i ≡ panicked k x)
  unfolding held_mutex put
  panic_ends_key few r i j x y k at (pick h lt mv) = (
    λ also. ground (arith, known i x k, known j y k, broken i x k, owned j y k),
    by_mover mv refl,
  )
    where
      open (Reach-Inv same few r) use {known, broken, owned}

      by_mover :
          {h : ℕ} {p p' : Phase K} {l : KeyLock K} {m : ℕ → Mutex}
          → Move same h s.lock s.mutex p l m p'
          → s.phase h ≡ p
          → put ℕ_discrete s.phase h p' i ≡ panicked k x
      by_mover (lock g) e = ground arith
      by_mover mv e = ground arith
