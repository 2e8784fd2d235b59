-- ===== src/Driver/Sync/Invariant.antt =====
-- What holds in every reachable state of the lock.
use wave_judge.Prelude.{
  ℕ, ◌+◌, ◌^◌, ◌≤◌, ◌<◌, ◌≡◌, refl, sym, subst, Option, none, some, ◌∙◌, arith,
}
use wave_judge.Driver.Sync.Table.{
  count_of, mutex_of, TableInv, joined-TableInv, left-TableInv, joined-mutex, left-mutex,
}
use native.Mathlib.Decide.{dec_lt, ℕ_discrete}
use wave_judge.Driver.Sync.Counting.{
  tally-put, weight-le-tally, tally-le, tally-zero, using, using-le, users,
}
use wave_judge.Driver.Sync.{
  put, KeyLock, new_lock, Phase, outside, waiting, acting, leaving, panicked, Mutex, locked_by,
  poisoned, System, join, leave, Move, call, lock, lock_fails, returns, panics, exit, pick, initial,
  Reach, start, later,
}

-- the mutex that a thread has cloned
unfoldable pub held_mutex : {K : Type 0} → Phase K → Option (K × ℕ)
held_mutex outside = none
held_mutex (waiting k x) = some (k, x)
held_mutex (acting k x) = some (k, x)
held_mutex (leaving k x) = some (k, x)
held_mutex (panicked k x) = some (k, x)

module _ {K : Type 0} (same : Discrete K) where
  -- The state of every mutex and what the threads know of it.
  pub record Inv (n : ℕ) (s : System K) : Type 0 where
    pub few : n < 2 ^ 32
    pub table : TableInv (λ k. users same k n s.phase) s.lock
    pub idle : (i : ℕ) → n ≤ i → s.phase i ≡ outside
    pub known :
        (i x : ℕ) (k : K) → held_mutex (s.phase i) ≡ some (k, x) → mutex_of (s.lock.keys k) ≡ some x
    pub owned : (i x : ℕ) (k : K) → s.phase i ≡ acting k x → s.mutex x ≡ locked_by i
    pub broken : (i x : ℕ) (k : K) → s.phase i ≡ panicked k x → s.mutex x ≡ poisoned
    pub owner : (i x : ℕ) → s.mutex x ≡ locked_by i → (k : K) × (s.phase i ≡ acting k x)
    pub culprit : (x : ℕ) → s.mutex x ≡ poisoned → (i : ℕ) × (k : K) × (s.phase i ≡ panicked k x)

  using-pos : (k : K) (x : ℕ) → (p : Phase K) → held_mutex p ≡ some (k, x) → using same k p ≡ 1
  unfolding using held_mutex
  using-pos k x p e = ground arith

  -- A thread that has a mutex of the key is counted.
  pub users-pos :
      {n : ℕ} (ph : ℕ → Phase K)
      → ((j : ℕ) → n ≤ j → ph j ≡ outside)
      → (j x : ℕ) (k : K) → held_mutex (ph j) ≡ some (k, x)
      → 0 < users same k n ph
  unfolding held_mutex
  users-pos {n} ph idle j x k e = elim (dec_lt j n) [
    | yes below ↦ omega (arith, weight-le-tally (using same k) n ph j below, using-pos k x (ph j) e)
    | no above ↦ absurd (ground (arith, idle j (omega arith)))
  ]

  module _ {n : ℕ} {s : System K} (inv : Inv n s) (i : ℕ) (lt : i < n) where
    open inv use {few, table, idle, known, owned, broken, owner, culprit}

    counts :
        (k : K) (p' : Phase K)
        → (users same k n (put ℕ_discrete s.phase i p') + using same k (s.phase i)
            ≡ users same k n s.phase + using same k p')
          × (users same k n (put ℕ_discrete s.phase i p') < 2 ^ 32)
          × (users same k n s.phase < 2 ^ 32)
    counts k p' = (
      tally-put (using same k) n s.phase i p' lt,
      omega (arith, tally-le (using same k) (using-le same k) n (put ℕ_discrete s.phase i p'), few),
      omega (arith, tally-le (using same k) (using-le same k) n s.phase, few),
    )

    -- A thread at the last block finds its entry.
    exit-table :
        (x : ℕ) (key : K)
        → s.phase i ≡ leaving key x
        → (l : KeyLock K) × (leave same key s.lock ≡ some l)
          × TableInv (λ k. users same k n (put ℕ_discrete s.phase i outside)) l
    unfolding using leave
    exit-table x key e =
        left-TableInv same {d = λ k. users same k n (put ℕ_discrete s.phase i outside)} table key
          (s.lock.keys key) refl (counts key outside).2 (ground (arith, counts key outside))
          (λ k ne. ground (arith, counts k outside))

    Move-table :
        {p p' : Phase K} {l : KeyLock K} {m : ℕ → Mutex}
        → Move same i s.lock s.mutex p l m p'
        → s.phase i ≡ p
        → TableInv (λ k. users same k n (put ℕ_discrete s.phase i p')) l
    unfolding using join leave
    Move-table {p'} (call {x} key q) e =
        subst (λ r. TableInv (λ k. users same k n (put ℕ_discrete s.phase i (waiting key x))) r.0)
          {x = _} {y = _} q
          (joined-TableInv same table key (s.lock.keys key) refl (counts key (waiting key x)).1
            (ground (arith, counts key (waiting key x)))
            (λ k ne. ground (arith, counts k (waiting key x))))
    Move-table (exit {key} {x} {s'} q) e =
        let (_, g, kept) = exit-table x key e in
        subst (TableInv _) {x = _} {y = s'} (ground (arith, sym g ∙ q)) kept
    Move-table {p'} mv e = record {
      counted = λ k. ground (arith, table.counted k, counts k p');
      live = table.live;
      fresh = table.fresh;
      apart = table.apart;
    }

    -- What the mutexes say of the threads, and the threads of the mutexes.
    Move-owned :
        {p p' : Phase K} {l : KeyLock K} {m : ℕ → Mutex}
        → Move same i s.lock s.mutex p l m p'
        → s.phase i ≡ p
        → (j x : ℕ) (k : K) → put ℕ_discrete s.phase i p' j ≡ acting k x
        → m x ≡ locked_by j
    unfolding put
    Move-owned (lock g) e j x k q = ground (arith, owned j x k)
    Move-owned (returns {key} {x = y}) e j x k q = ground (arith, owned j x k, owned i y key e)
    Move-owned (panics {key} {x = y}) e j x k q = ground (arith, owned j x k, owned i y key e)
    Move-owned mv e j x k q = ground (arith, owned j x k)

    Move-broken :
        {p p' : Phase K} {l : KeyLock K} {m : ℕ → Mutex}
        → Move same i s.lock s.mutex p l m p'
        → s.phase i ≡ p
        → (j x : ℕ) (k : K) → put ℕ_discrete s.phase i p' j ≡ panicked k x
        → m x ≡ poisoned
    unfolding put
    Move-broken (lock g) e j x k q = ground (arith, broken j x k)
    Move-broken (returns {key} {x = y}) e j x k q = ground (arith, broken j x k, owned i y key e)
    Move-broken (lock_fails g) e j x k q = ground (arith, broken j x k)
    Move-broken mv e j x k q = ground (arith, broken j x k)

    Move-idle :
        {p p' : Phase K} {l : KeyLock K} {m : ℕ → Mutex}
        → Move same i s.lock s.mutex p l m p'
        → s.phase i ≡ p
        → (j : ℕ) → n ≤ j
        → put ℕ_discrete s.phase i p' j ≡ outside
    unfolding put
    Move-idle {p'} mv e j above = ground (arith, idle j above, lt)

    Move-owner :
        {p p' : Phase K} {l : KeyLock K} {m : ℕ → Mutex}
        → Move same i s.lock s.mutex p l m p'
        → s.phase i ≡ p
        → (j x : ℕ) → m x ≡ locked_by j
        → (k : K) × (put ℕ_discrete s.phase i p' j ≡ acting k x)
    unfolding put
    Move-owner (lock {key} {x = y} g) e j x q = elim (ℕ_discrete y x) [
      | yes here ↦ (key, ground arith)
      | no there ↦ let (k, at) = owner j x (ground arith) in (k, ground arith)
    ]
    Move-owner (returns {key} {x = y}) e j x q =
        let (k, at) = owner j x (ground arith) in (k, ground arith)
    Move-owner (panics {key} {x = y}) e j x q =
        let (k, at) = owner j x (ground arith) in (k, ground arith)
    Move-owner mv e j x q = let (k, at) = owner j x q in (k, ground arith)

    Move-culprit :
        {p p' : Phase K} {l : KeyLock K} {m : ℕ → Mutex}
        → Move same i s.lock s.mutex p l m p'
        → s.phase i ≡ p
        → (x : ℕ) → m x ≡ poisoned
        → (j : ℕ) × (k : K) × (put ℕ_discrete s.phase i p' j ≡ panicked k x)
    unfolding put
    Move-culprit (panics {key} {x = y}) e x q = elim (ℕ_discrete y x) [
      | yes here ↦ (i, key, ground arith)
      | no there ↦ let (j, k, at) = culprit x (ground arith) in (j, k, ground arith)
    ]
    Move-culprit (lock {x = y} g) e x q =
        let (j, k, at) = culprit x (ground arith) in (j, k, ground arith)
    Move-culprit (returns {key} {x = y}) e x q =
        let (j, k, at) = culprit x (ground arith) in (j, k, ground arith)
    Move-culprit mv e x q = let (j, k, at) = culprit x q in (j, k, ground arith)

    Move-known :
        {p p' : Phase K} {l : KeyLock K} {m : ℕ → Mutex}
        → Move same i s.lock s.mutex p l m p'
        → s.phase i ≡ p
        → (j x : ℕ) (k : K) → held_mutex (put ℕ_discrete s.phase i p' j) ≡ some (k, x)
        → mutex_of (l.keys k) ≡ some x
    unfolding put held_mutex join leave
    Move-known (call {x = y} key g) e j x k q =
        let (mine, kept) = joined-mutex same s.lock key (s.lock.keys key) refl in
        ground (arith, known j x k, kept k x)
    Move-known (exit {key} {x = y} {s'} g) e j x k q =
        left-mutex same s.lock s' key (s.lock.keys key) refl g k x (known j x k (ground arith)) (
          ground (
            arith,
            (Move-table (exit g) e).counted k,
            users-pos (put ℕ_discrete s.phase i outside) (Move-idle (exit g) e) j x k q,
          ))
    Move-known mv e j x k q = ground (arith, known j x k, known i x k)

  pub leave-some :
      {n : ℕ} {s : System K}
      → Inv n s
      → (i x : ℕ) (k : K) → s.phase i ≡ leaving k x
      → (i < n) × (l : KeyLock K) × (leave same k s.lock ≡ some l)
  leave-some {n} inv i x k e = elim (dec_lt i n) [
    | yes lt ↦ let (l, g, _) = exit-table inv i lt x k e in (lt, l, g)
    | no above ↦ absurd (ground (arith, inv.idle i (omega arith)))
  ]

  pub Move-Inv :
      {n : ℕ} {s : System K}
      → Inv n s
      → (i : ℕ) → i < n
      → {p' : Phase K} {l : KeyLock K} {m : ℕ → Mutex}
      → Move same i s.lock s.mutex (s.phase i) l m p'
      → Inv n (record { lock = l; mutex = m; phase = put ℕ_discrete s.phase i p' })
  Move-Inv inv i lt mv = record {
    few = inv.few;
    table = Move-table inv i lt mv refl;
    idle = Move-idle inv i lt mv refl;
    known = Move-known inv i lt mv refl;
    owned = Move-owned inv i lt mv refl;
    broken = Move-broken inv i lt mv refl;
    owner = Move-owner inv i lt mv refl;
    culprit = Move-culprit inv i lt mv refl;
  }

  users-outside : (k : K) (n : ℕ) → users same k n (λ _. outside) ≡ 0
  unfolding using
  users-outside k n = tally-zero (using same k) n (λ _. outside) (λ _. refl)

  initial-Inv : (n : ℕ) → n < 2 ^ 32 → Inv n (initial same)
  unfolding initial new_lock count_of mutex_of held_mutex
  initial-Inv n few = record {
    few = few;
    table = record {
      counted = λ k. sym (users-outside k n);
      live = λ k x q. absurd (ground arith);
      fresh = λ k x q. absurd (ground arith);
      apart = λ k l x q r. absurd (ground arith);
    };
    idle = λ i above. refl;
    known = λ i x k q. absurd (ground arith);
    owned = λ i x k q. absurd (ground arith);
    broken = λ i x k q. absurd (ground arith);
    owner = λ i x q. absurd (ground arith);
    culprit = λ x q. absurd (ground arith);
  }

  pub Reach-Inv : {n : ℕ} {s : System K} → n < 2 ^ 32 → Reach same n s → Inv n s
  Reach-Inv {n} few start = initial-Inv n few
  Reach-Inv few (later r (pick i lt mv)) = Move-Inv (Reach-Inv few r) i lt mv
