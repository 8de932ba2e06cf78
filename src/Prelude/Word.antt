-- ===== src/Prelude/Word.antt =====
-- Machine integers of fixed width, kept as natural numbers below a power of two.
use Prim.Native.Nat.{ℕ, ◌+◌, ◌%◌, min}

abbrev pub u8_max : ℕ
u8_max = 255

abbrev pub u16_max : ℕ
u16_max = 65535

abbrev pub u32_max : ℕ
u32_max = 4294967295

abbrev pub u64_max : ℕ
u64_max = 18446744073709551615

-- `saturating_add` at the width whose greatest value is given.
abbrev pub saturating_add : ℕ → ℕ → ℕ → ℕ
saturating_add max a b = min max (a + b)

-- `x as u16`, `x as u32`: the low bits.
abbrev pub as_u16 : ℕ → ℕ
as_u16 x = x % 65536

abbrev pub as_u32 : ℕ → ℕ
as_u32 x = x % 4294967296
