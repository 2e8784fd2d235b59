-- ===== src/Sandbox/Usage/Laws.antt =====
-- Lemmas on the update of resource usage and on `daemon_check_limits`.
use wave_judge.Prelude.{ℕ, ◌≤◌, ◌<◌, ◌≡◌, ◌↔◌, refl, true, Option, none, some, arith}
use wave_judge.Sandbox.Memory.{Duration, MemorySize, bytes}
use wave_judge.Sandbox.Usage.{
  Usage, Limits, cpu_time, update, check_limits, over_memory, ExitStatus, cpu_time_limit_exceeded,
  real_time_limit_exceeded, memory_limit_exceeded,
}

-- Field by field, no more was used; sizes are compared by their bytes.
infix 50 ◌⊑◌
pub record ◌⊑◌ (a b : Usage) : Type 0 where
  pub user : a.user_cpu_time ≤ b.user_cpu_time
  pub kernel : a.kernel_cpu_time ≤ b.kernel_cpu_time
  pub virtual : bytes a.virtual_mem_size ≤ bytes b.virtual_mem_size
  pub resident : bytes a.resident_set_size ≤ bytes b.resident_set_size

pub ⊑-refl : (a : Usage) → a ⊑ a
⊑-refl a = omega arith

pub ⊑-trans : {a b c : Usage} → a ⊑ b → b ⊑ c → a ⊑ c
⊑-trans p q = omega arith

pub update-left : (a b : Usage) → a ⊑ update a b
unfolding update
update-left a b = ground arith

pub update-right : (a b : Usage) → b ⊑ update a b
unfolding update
update-right a b = ground arith

-- An updated statistic is the least one that covers both the old one and the new sample: another
-- covers it exactly when it covers those two.
pub update-lub : (a b c : Usage) → (update a b ⊑ c) ↔ ((a ⊑ c) × (b ⊑ c))
unfolding update
update-lub a b c =
    (λ h. (⊑-trans (update-left a b) h, ⊑-trans (update-right a b) h), λ (p, q). ground arith)

-- A usage within all three limits; a limit that is not set allows everything.
abbrev pub WithinTime : Option Duration → Duration → Type 0
WithinTime none used = Unit
WithinTime (some limit) used = used ≤ limit

abbrev pub WithinMemory : Option MemorySize → MemorySize → Type 0
WithinMemory none used = Unit
WithinMemory (some limit) used = bytes used ≤ bytes limit

pub record Within (limits : Limits) (usage : Usage) (elapsed : Duration) : Type 0 where
  pub cpu : WithinTime limits.cpu_time_limit (cpu_time usage)
  pub real : WithinTime limits.real_time_limit elapsed
  pub memory : WithinMemory limits.memory_limit usage.virtual_mem_size

-- The check stops a process exactly when it is not within all the limits.
pub check_limits-none :
    (limits : Limits) (usage : Usage) (elapsed : Duration)
    → (check_limits limits usage elapsed ≡ none) ↔ Within limits usage elapsed
unfolding check_limits
check_limits-none limits usage elapsed = (λ h. ground arith, λ w. ground arith)

-- A limit that is set and was passed.
abbrev pub Passed : Option ℕ → ℕ → Type 0
Passed limit used = (l : ℕ) × (limit ≡ some l) × (l < used)

-- What a status that the check returns says: the limit of that kind is set and was passed.
abbrev pub Explains : Limits → Usage → Duration → ExitStatus → Type 0
Explains limits usage elapsed cpu_time_limit_exceeded =
    Passed limits.cpu_time_limit (cpu_time usage)
Explains limits usage elapsed real_time_limit_exceeded = Passed limits.real_time_limit elapsed
Explains limits usage elapsed memory_limit_exceeded =
    (l : MemorySize) × (limits.memory_limit ≡ some l) × (bytes l < bytes usage.virtual_mem_size)
Explains limits usage elapsed _ = ⊥

over_memory-Passed :
    (limit : Option MemorySize) (used : MemorySize)
    → over_memory limit used ≡ true
    → (l : MemorySize) × (limit ≡ some l) × (bytes l < bytes used)
unfolding over_memory
over_memory-Passed none used h = cc
over_memory-Passed (some l) used h = (l, refl, ground arith)

-- A process is stopped with the status of a limit only if that limit is set and was passed.
pub check_limits-Explains :
    (limits : Limits) (usage : Usage) (elapsed : Duration) (status : ExitStatus)
    → check_limits limits usage elapsed ≡ some status
    → Explains limits usage elapsed status
unfolding check_limits
check_limits-Explains limits usage elapsed cpu_time_limit_exceeded h = ground arith
check_limits-Explains limits usage elapsed real_time_limit_exceeded h = ground arith
check_limits-Explains limits usage elapsed memory_limit_exceeded h =
    over_memory-Passed limits.memory_limit usage.virtual_mem_size (ground arith)
check_limits-Explains limits usage elapsed _ h = ground arith
