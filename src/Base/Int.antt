-- ===== src/Base/Int.antt =====
-- Signed integers over the native numbers, and the two's complement reading of machine words.
use Prim.Native.Nat.{ℕ, ◌-◌, ◌%◌, ◌^◌}
use mcpfz_probe.Base.Tests.{ltb, if◌then◌else◌}

-- `negsuc n` is -(n + 1).
pub data ℤ : Type 0 where
  pos : ℕ → ℤ
  negsuc : ℕ → ℤ

-- The number that a 32-bit pattern stands for, as an `i32`.
abbrev pub signed32 : ℕ → ℤ
signed32 w = if ltb w (2 ^ 31) then pos w else negsuc (2 ^ 32 - w - 1)

-- The number that a 64-bit pattern stands for, as an `i64`.
abbrev pub signed64 : ℕ → ℤ
signed64 w = if ltb w (2 ^ 63) then pos w else negsuc (2 ^ 64 - w - 1)

-- The low 32 bits of an integer: the bit pattern of `x as i32`.
abbrev pub low32 : ℤ → ℕ
low32 (pos n) = n % 2 ^ 32
low32 (negsuc n) = 2 ^ 32 - 1 - n % 2 ^ 32

-- `x as i32` for an `i64`.
abbrev pub as_i32 : ℤ → ℤ
as_i32 x = signed32 (low32 x)
