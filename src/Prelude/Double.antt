-- ===== src/Prelude/Double.antt =====
-- Rust's `f64` where the sources calculate with it: IEEE 754 doubles, rounded to the nearest with
-- ties to even.
use Prim.Native.Nat.{ℕ, zero, suc, ◌+◌, ◌*◌, ◌/◌, ◌%◌, ◌^◌, ◌<◌, min}
use mathlib.Core.Bool.{Bool, true, false}
use native.Mathlib.Omega.{arith}
use sdv_simulation.Prelude.Tests.{ltb}

-- A finite double is its mantissa, which is below 2^53, times 2 to its shift, in units of 2^-1074,
-- and its sign is whether it is negative.
pub data F64 : Type 0 where
  nan : F64
  infinite : Bool → F64
  finite : Bool → ℕ → ℕ → F64

abbrev pub nearest : ℕ → ℕ → ℕ
nearest n d =
    let q = n / d in
    let r = n % d in
    elim (ltb (2 * r) d) [
      | true ↦ q
      | false ↦ elim (ltb d (2 * r)) [ true ↦ q + 1 | false ↦ q + q % 2 ]
    ]

-- The double nearest to n / d units: the least shift at which the mantissa fits. There are 2046
-- shifts, above which the number is infinite.
unfoldable pub fitting : ℕ → Bool → ℕ → ℕ → ℕ → F64
fitting zero negative shift n d = F64.infinite negative
fitting (suc shifts) negative shift n d = elim (ltb (nearest n d) (2 ^ 53)) [
  | true ↦ F64.finite negative (nearest n d) shift
  | false ↦ fitting shifts negative (shift + 1) n (2 * d)
]

-- `x as f64 / d` of unsigned integers that a double holds exactly, with d not 0.
unfoldable pub quotient : ℕ → ℕ → F64
unfolding fitting
quotient x d = fitting 2046 false 0 (x * 2 ^ 1074) d

-- `v * k` for a positive integer k that a double holds exactly.
unfoldable pub times : F64 → ℕ → F64
unfolding fitting
times F64.nan k = F64.nan
times (F64.infinite negative) k = F64.infinite negative
times (F64.finite negative mantissa shift) k = fitting 2046 negative 0 (mantissa * 2 ^ shift * k) 1

-- `v as u16`: towards 0, and at the bounds beyond them; NaN gives 0.
unfoldable pub f64_as_u16 : F64 → ℕ
f64_as_u16 F64.nan = 0
f64_as_u16 (F64.infinite true) = 0
f64_as_u16 (F64.infinite false) = 65535
f64_as_u16 (F64.finite true mantissa shift) = 0
f64_as_u16 (F64.finite false mantissa shift) = min 65535 (mantissa * 2 ^ shift / 2 ^ 1074)

pub f64_as_u16-fits : (v : F64) → f64_as_u16 v < 65536
unfolding f64_as_u16
f64_as_u16-fits F64.nan = omega arith
f64_as_u16-fits (F64.infinite true) = omega arith
f64_as_u16-fits (F64.infinite false) = omega arith
f64_as_u16-fits (F64.finite true mantissa shift) = omega arith
f64_as_u16-fits (F64.finite false mantissa shift) = omega arith
