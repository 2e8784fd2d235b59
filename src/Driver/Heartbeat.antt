-- ===== src/Driver/Heartbeat.antt =====
-- driver/src/heartbeat.rs, with `Heartbeat` of driver/src/restful/entities.rs and `max` of
-- driver/src/utils.rs. What procfs reads and the request to the board are a parameter; the log of
-- events says what the thread does.
pub mod Pace
use wave_judge.Prelude.{
  ℕ, zero, suc, ◌%◌, ◌^◌, ltb, List, [], ◌∷◌, ◌++◌, Text, Result, ok, err, panic, if◌then◌else◌,
}
use wave_judge.Sandbox.Memory.{Duration}
use wave_judge.Prelude.Work.{Work, ◌>>=◌, give}
use wave_judge.Driver.Workers.Threads.{Thread, alive, dead}

pub record Heartbeat : Type 0 where
  pub cores : ℕ
  pub total_physical_memory : ℕ
  pub free_physical_memory : ℕ
  pub total_swap_space : ℕ
  pub free_swap_space : ℕ
  pub cached_swap_space : ℕ

-- `Heartbeat::new`.
abbrev pub new_heartbeat : Heartbeat
new_heartbeat = record {
  cores = 0;
  total_physical_memory = 0;
  free_physical_memory = 0;
  total_swap_space = 0;
  free_swap_space = 0;
  cached_swap_space = 0;
}

pub record MemoryFootprint : Type 0 where
  pub total_physical_memory : ℕ
  pub free_physical_memory : ℕ
  pub total_swap_space : ℕ
  pub free_swap_space : ℕ
  pub cached_swap_space : ℕ

-- `Meminfo` of procfs, as far as it is read.
pub record Meminfo : Type 0 where
  pub mem_total : ℕ
  pub mem_free : ℕ
  pub swap_total : ℕ
  pub swap_free : ℕ
  pub swap_cached : ℕ

-- procfs, and `patch_heartbeat` of the client.
pub record Node (W E : Type 0) : Type 0 where
  pub meminfo : Work W Text Meminfo
  pub num_cores : Work W Text ℕ
  pub patch_heartbeat : Heartbeat → Work W E (Unit {0})

unfoldable pub max : Duration → Duration → Duration
max lhs rhs = if ltb lhs rhs then rhs else lhs

-- Three seconds.
abbrev pub min_heartbeat_interval : Duration
min_heartbeat_interval = 3000000000

pub data Event : Type 0 where
  slept : Duration → Event
  sent : Heartbeat → Event

unfoldable pub followed :
    {W : Type 0} → (W → List Event × Thread W) → List Event × Thread W → List Event × Thread W
followed next (events, alive w) = (events ++ (next w).0, (next w).1)
followed next (events, dead w) = (events, dead w)

module _ {W E : Type 0} (node : Node W E) where
  unfoldable pub get_cores : Work W Text ℕ
  get_cores = do cores ← node.num_cores; give (ok (cores % 2 ^ 32))

  unfoldable pub new_footprint : Work W Text MemoryFootprint
  new_footprint = do
    memory ← node.meminfo
    give (
        ok (record {
          total_physical_memory = memory.mem_total;
          free_physical_memory = memory.mem_free;
          total_swap_space = memory.swap_total;
          free_swap_space = memory.swap_free;
          cached_swap_space = memory.swap_cached;
        }))

  unfoldable pub create_heartbeat : Work W Text Heartbeat
  unfolding get_cores new_footprint
  create_heartbeat = do
    memory ← new_footprint
    cores ← get_cores
    give (
        ok (record new_heartbeat {
          cores = cores;
          total_physical_memory = memory.total_physical_memory;
          free_physical_memory = memory.free_physical_memory;
          total_swap_space = memory.total_swap_space;
          free_swap_space = memory.free_swap_space;
          cached_swap_space = memory.cached_swap_space;
        }))

  unfoldable pub patched : Result E (Unit {0}) × W → Thread W
  patched (ok u, w) = alive w
  patched (err e, w) = alive w
  patched (panic, w) = dead w

  unfoldable pub packet : Result Text Heartbeat × W → List Event × Thread W
  unfolding patched
  packet (ok hb, w) = (sent hb ∷ [], patched (node.patch_heartbeat hb w))
  packet (err e, w) = ([], alive w)
  packet (panic, w) = ([], dead w)

  unfoldable pub round : Duration → W → List Event × Thread W
  unfolding create_heartbeat packet
  round heartbeat_interval w =
      let (events, thread) = packet (create_heartbeat w) in
      (slept heartbeat_interval ∷ events, thread)

  unfoldable pub rounds : Duration → ℕ → W → List Event × Thread W
  unfolding round followed
  rounds heartbeat_interval zero w = ([], alive w)
  rounds heartbeat_interval (suc n) w =
      followed (rounds heartbeat_interval n) (round heartbeat_interval w)

  -- `heartbeat_daemon_entry`, for a number of rounds; the loop has no other end.
  unfoldable pub heartbeat_daemon_entry : Duration → ℕ → W → List Event × Thread W
  unfolding max rounds
  heartbeat_daemon_entry heartbeat_interval n w =
      rounds (max heartbeat_interval min_heartbeat_interval) n w
