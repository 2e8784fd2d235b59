-- ===== src/Sandbox/Memory.antt =====
-- sandbox/src/lib.rs: `MemorySize` and `ProcessResourceUsage`. `usize` has 64 bits and wraps, as in
-- a release build; a `Duration` is its number of nanoseconds.
use wave_judge.Prelude.{ℕ, ◌*◌, ◌%◌, ◌^◌, Bool, ltb, ◌==◌}

abbrev pub Duration : Type 0
Duration = ℕ

abbrev pub usize : ℕ → ℕ
usize n = n % 2 ^ 64

pub data MemorySize : Type 0 where
  bytes_of kilo_bytes mega_bytes giga_bytes tera_bytes : ℕ → MemorySize

-- `MemorySize::bytes`: every product wraps.
unfoldable pub bytes : MemorySize → ℕ
bytes (bytes_of s) = s
bytes (kilo_bytes s) = usize (s * 1024)
bytes (mega_bytes s) = usize (usize (s * 1024) * 1024)
bytes (giga_bytes s) = usize (usize (usize (s * 1024) * 1024) * 1024)
bytes (tera_bytes s) = usize (usize (usize (usize (s * 1024) * 1024) * 1024) * 1024)

-- `self > other` and `self == other`, both by `cmp` on the bytes.
unfoldable pub size_gt : MemorySize → MemorySize → Bool
unfolding bytes
size_gt a b = ltb (bytes b) (bytes a)

unfoldable pub size_eq : MemorySize → MemorySize → Bool
unfolding bytes
size_eq a b = bytes a == bytes b
