-- ===== src/Twin/Identity.antt =====
-- Identities as lists of code points, and `str::trim`: crates/common/src/digital_twin/mod.rs
-- trims the identity of a twin. `White_Space` is Unicode's.
use mathlib.Core.List.{reverse}
use sdv_simulation.Prelude.{ℕ, Bool, ◌||◌, ◌&&◌, List, [], ◌∷◌, leb, ◌==◌, if◌then◌else◌}

abbrev pub Text : Type 0
Text = List ℕ

unfoldable pub is_whitespace : ℕ → Bool
is_whitespace c =
    (leb 9 c && leb c 13)
    || c == 0x20
    || c == 0x85
    || c == 0xa0
    || c == 0x1680
    || (leb 0x2000 c && leb c 0x200a)
    || c == 0x2028
    || c == 0x2029
    || c == 0x202f
    || c == 0x205f
    || c == 0x3000

unfoldable pub trim_start : Text → Text
trim_start [] = []
trim_start (c ∷ cs) = if is_whitespace c then trim_start cs else c ∷ cs

unfoldable pub trim_end : Text → Text
unfolding trim_start
trim_end cs = reverse (trim_start (reverse cs))

unfoldable pub trim : Text → Text
unfolding trim_end
trim cs = trim_end (trim_start cs)
