-- ===== src/Driver/Sync.antt =====
-- The lock of each key (driver/src/sync.rs): the table behind the mutex `keys`, what the two blocks
-- of lock_and_execute under that mutex do to it, and the threads between the blocks. A mutex is
-- known by the number that its allocation got; a map is a function to Option.
pub mod Counting
pub mod Table
pub mod Invariant
pub mod Exclusion
use wave_judge.Prelude.{ℕ, ◌+◌, ◌-◌, ◌%◌, ◌^◌, ◌<◌, ◌≡◌, if◌then◌else◌, ◌==◌, Option, none, some}
use mathlib.Core.Logic.{ite}
use native.Mathlib.Decide.{ℕ_discrete}

-- `K → V` and thread-indexed families: the value at one index replaced
unfoldable pub put {ℓ κ} : {I : Type ℓ} {V : Type κ} → Discrete I → (I → V) → I → V → I → V
put same f i v j = ite (same i j) v (f j)

-- the count is a u32
pub record KeyLockEntry : Type 0 where
  pub count : ℕ
  pub mtx : ℕ

unfoldable pub new_entry : ℕ → KeyLockEntry
new_entry m = record { count = 0; mtx = m }

pub record KeyLock (K : Type 0) : Type 0 where
  pub keys : K → Option KeyLockEntry
  pub allocated : ℕ  -- mutexes made so far

unfoldable pub new_lock : {K : Type 0} → KeyLock K
new_lock = record { keys = λ _. none; allocated = 0 }

unfoldable pub increment : KeyLockEntry → KeyLockEntry
increment e = record e { count = (e.count + 1) % 2 ^ 32 }

unfoldable pub decrement : KeyLockEntry → KeyLockEntry
decrement e = record e { count = (e.count + (2 ^ 32 - 1)) % 2 ^ 32 }

-- where a thread of lock_and_execute stands, with the entry's mutex in its local variable
pub data Phase (K : Type 0) : Type 0 where
  outside : Phase K
  waiting : (key : K) → (mtx : ℕ) → Phase K  -- before mtx.lock()
  acting : (key : K) → (mtx : ℕ) → Phase K  -- in the action
  leaving : (key : K) → (mtx : ℕ) → Phase K  -- before the last block
  panicked : (key : K) → (mtx : ℕ) → Phase K

-- a std Mutex: a thread that panics in the action poisons it
pub data Mutex : Type 0 where
  unlocked : Mutex
  locked_by : (thread : ℕ) → Mutex
  poisoned : Mutex

pub record System (K : Type 0) : Type 0 where
  pub lock : KeyLock K
  pub mutex : ℕ → Mutex
  pub phase : ℕ → Phase K

module _ {K : Type 0} (same : Discrete K) where
  -- The first block: the entry, made when the key is not active, counts one thread more.
  unfoldable pub joined : K → KeyLock K → Option KeyLockEntry → KeyLock K × ℕ
  joined key s none = (
    record {
      keys = put same s.keys key (some (increment (new_entry s.allocated)));
      allocated = s.allocated + 1;
    },
    s.allocated,
  )
  joined key s (some e) = (record s { keys = put same s.keys key (some (increment e)) }, e.mtx)

  unfoldable pub join : K → KeyLock K → KeyLock K × ℕ
  join key s = joined key s (s.keys key)

  -- The last block: the entry counts one thread less, and goes when it counts none.
  unfoldable pub remaining : K → KeyLock K → KeyLockEntry → KeyLock K
  remaining key s e = record s {
    keys = put same s.keys key (if e.count == 0 then none else some e);
  }

  -- none is the panic of the unwrap
  unfoldable pub left : K → KeyLock K → Option KeyLockEntry → Option (KeyLock K)
  left key s none = none
  left key s (some e) = some (remaining key s (decrement e))

  unfoldable pub leave : K → KeyLock K → Option (KeyLock K)
  leave key s = left key s (s.keys key)

  -- One step of thread `i`; a block under the mutex `keys` is one step.
  pub data Move (i : ℕ) (s : KeyLock K) (m : ℕ → Mutex)
      : Phase K → KeyLock K → (ℕ → Mutex) → Phase K → Type 0 where
    call :
        {s' : KeyLock K} {x : ℕ}
        → (key : K) → join key s ≡ (s', x)
        → Move i s m outside s' m (waiting key x)
    lock :
        {key : K} {x : ℕ}
        → m x ≡ unlocked
        → Move i s m (waiting key x) s (put ℕ_discrete m x (locked_by i)) (acting key x)
    lock_fails :
        {key : K} {x : ℕ} → m x ≡ poisoned → Move i s m (waiting key x) s m (panicked key x)
    returns :
        {key : K} {x : ℕ}
        → Move i s m (acting key x) s (put ℕ_discrete m x unlocked) (leaving key x)
    panics :
        {key : K} {x : ℕ}
        → Move i s m (acting key x) s (put ℕ_discrete m x poisoned) (panicked key x)
    exit :
        {key : K} {x : ℕ} {s' : KeyLock K}
        → leave key s ≡ some s'
        → Move i s m (leaving key x) s' m outside

  pub data Step (n : ℕ) (s : System K) : System K → Type 0 where
    pick :
        (i : ℕ) {l : KeyLock K} {m : ℕ → Mutex} {p : Phase K}
        → i < n
        → Move i s.lock s.mutex (s.phase i) l m p
        → Step n s (record { lock = l; mutex = m; phase = put ℕ_discrete s.phase i p })

  unfoldable pub initial : System K
  initial = record { lock = new_lock; mutex = λ _. unlocked; phase = λ _. outside }

  -- What `n` threads, interleaved in any order, can reach.
  pub data Reach (n : ℕ) : System K → Type 0 where
    start : Reach n initial
    later : {s t : System K} → Reach n s → Step n s t → Reach n t
