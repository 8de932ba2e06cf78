-- ===== src/Emulator.antt =====
-- The emulator of the physical world, crates/emulator/src. A random draw is the rand crate's and
-- is an argument: whether an event starts, and the number drawn from a range as its offset from
-- the range's lower end.
pub mod Rain
pub mod Light
pub mod Rpm
pub mod Spells
pub mod Tunnels
pub mod Car
pub mod Publishing
use sdv_simulation.Prelude.{ℕ, ◌+◌, ◌≤◌}

-- `random_range(low..=high)` at that offset, and that the offset is in the range.
abbrev pub from_range : ℕ → ℕ → ℕ
from_range low offset = low + offset

abbrev pub InRange : ℕ → ℕ → ℕ → Type 0
InRange low high offset = low + offset ≤ high
