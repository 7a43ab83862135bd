-- ===== src/Base/Ints.antt =====
-- Machine words and results of C functions.
use Prim.Native.Nat.{ℕ, ◌%◌, ◌^◌}

-- `(uint32_t)n`
abbrev pub u32 : ℕ → ℕ
u32 n = n % 2 ^ 32

-- `size_t` arithmetic wraps at 64 bits.
abbrev pub u64 : ℕ → ℕ
u64 n = n % 2 ^ 64

-- A C function that returns 0, or -1.
pub data Status : Type 0 where
  success failure : Status

-- The integers: `negsuc n` is `-(n + 1)`.
pub data ℤ : Type 0 where
  pos negsuc : ℕ → ℤ
