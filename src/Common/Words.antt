-- ===== src/Common/Words.antt =====
-- Machine words as native numbers, and the 64-bit pattern of a signed number.
use Prim.Native.Nat.{ℕ, ◌%◌, ◌^◌}

abbrev pub u32 : ℕ → ℕ
u32 n = n % 2 ^ 32

abbrev pub u64 : ℕ → ℕ
u64 n = n % 2 ^ 64
