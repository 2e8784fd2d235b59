-- ===== src/Driver/Sync/Table.antt =====
-- The table of the active keys: what its two blocks keep.
use wave_judge.Prelude.{ℕ, ◌+◌, ◌^◌, ◌<◌, ◌≡◌, refl, subst, Option, none, some, arith, ◌≢◌}
use wave_judge.Driver.Sync.{
  put, KeyLockEntry, new_entry, increment, decrement, remaining, KeyLock, joined, left,
}

unfoldable pub count_of : Option KeyLockEntry → ℕ
count_of none = 0
count_of (some e) = e.count

unfoldable pub mutex_of : Option KeyLockEntry → Option ℕ
mutex_of none = none
mutex_of (some e) = some e.mtx

module _ {K : Type 0} where
  -- The table alone: the counts are those of the threads, live entries count some thread, and no
  -- two keys share a mutex.
  pub record TableInv (count : K → ℕ) (s : KeyLock K) : Type 0 where
    pub counted : (k : K) → count_of (s.keys k) ≡ count k
    pub live : (k : K) (x : ℕ) → mutex_of (s.keys k) ≡ some x → 0 < count_of (s.keys k)
    pub fresh : (k : K) (x : ℕ) → mutex_of (s.keys k) ≡ some x → x < s.allocated
    pub apart :
        (k l : K) (x : ℕ) → mutex_of (s.keys k) ≡ some x → mutex_of (s.keys l) ≡ some x → k ≡ l

module _ {K : Type 0} (same : Discrete K) where
  module _ {c d : K → ℕ} {s : KeyLock K} (inv : TableInv c s) (key : K) where
    open inv use {counted, live, fresh, apart}

    pub joined-TableInv :
        (o : Option KeyLockEntry)
        → s.keys key ≡ o
        → d key < 2 ^ 32
        → d key ≡ c key + 1
        → ((k : K) → k ≢ key → d k ≡ c k)
        → TableInv d ((joined same key s o).0)
    unfolding joined put count_of mutex_of increment new_entry
    joined-TableInv none e small more others = record {
      counted = λ k. ground (arith, counted k, counted key, more, others k);
      live = λ k x q. ground (arith, live k x, counted k);
      fresh = λ k x q. ground (arith, fresh k x);
      apart = λ k l x q r. ground (arith, apart k l x, fresh k x, fresh l x);
    }
    joined-TableInv (some e) h small more others = record {
      counted = λ k. ground (arith, counted k, counted key, more, others k, small);
      live = λ k x q. ground (arith, live k x, counted key, small);
      fresh = λ k x q. ground (arith, fresh k x, fresh key x);
      apart = λ k l x q r. ground (arith, apart k l x, apart key l x, apart k key x);
    }

    remaining-TableInv :
        (e : KeyLockEntry)
        → s.keys key ≡ some e
        → c key < 2 ^ 32
        → c key ≡ d key + 1
        → ((k : K) → k ≢ key → d k ≡ c k)
        → TableInv d (remaining same key s (decrement e))
    unfolding remaining put count_of mutex_of decrement
    remaining-TableInv e h small less others = record {
      counted = λ k. ground (arith, counted k, counted key, others k, small);
      live = λ k x q. ground (arith, live k x, counted key, small);
      fresh = λ k x q. ground (arith, fresh k x);
      apart = λ k l x q r. ground (arith, apart k l x);
    }

  pub joined-mutex :
      (s : KeyLock K) (key : K) (o : Option KeyLockEntry)
      → s.keys key ≡ o
      → (mutex_of ((joined same key s o).0.keys key) ≡ some (joined same key s o).1)
        × ((k : K) (x : ℕ)
            → mutex_of (s.keys k) ≡ some x
            → mutex_of ((joined same key s o).0.keys k) ≡ some x)
  unfolding joined put mutex_of increment new_entry
  joined-mutex s key none e = (ground arith, λ k x q. ground arith)
  joined-mutex s key (some e) h = (ground arith, λ k x q. ground arith)

  pub left-mutex :
      (s s' : KeyLock K) (key : K) (o : Option KeyLockEntry)
      → s.keys key ≡ o
      → left same key s o ≡ some s'
      → (k : K) (x : ℕ) → mutex_of (s.keys k) ≡ some x
      → 0 < count_of (s'.keys k)
      → mutex_of (s'.keys k) ≡ some x
  unfolding left remaining put mutex_of count_of decrement
  left-mutex s s' key none e h k x q = absurd (ground arith)
  left-mutex s s' key (some e) h g k x q =
      subst (λ r. 0 < count_of (r.keys k) → mutex_of (r.keys k) ≡ some x)
        {x = remaining same key s (decrement e)} {y = s'} (ground arith) (λ pos. ground arith)

  -- A thread counted at a key keeps the entry of the key in the table.
  pub left-TableInv :
      {c d : K → ℕ} {s : KeyLock K}
      → TableInv c s
      → (key : K) → (o : Option KeyLockEntry) → s.keys key ≡ o
      → c key < 2 ^ 32
      → c key ≡ d key + 1
      → ((k : K) → k ≢ key → d k ≡ c k)
      → (s' : KeyLock K) × (left same key s o ≡ some s') × TableInv d s'
  unfolding left count_of
  left-TableInv inv key none e small less others = absurd (ground (arith, inv.counted key))
  left-TableInv inv key (some e) h small less others =
      (_, refl, remaining-TableInv inv key e h small less others)
