-- ===== src/Emulator/Rain.antt =====
-- crates/emulator/src/models/rain.rs.
use sdv_simulation.Prelude.{ℕ, ◌-◌, Bool, true, false, ltb, if◌then◌else◌}
use sdv_simulation.Emulator.{from_range}

pub record RainModelConfig : Type 0 where
  pub rain_duration_ticks_min : ℕ
  pub rain_duration_ticks_max : ℕ

pub record RainModel : Type 0 where
  pub cfg : RainModelConfig
  pub rain_ticks_remaining : ℕ

pub record RainDraw : Type 0 where
  pub starts : Bool
  pub duration : ℕ

abbrev pub new_rain : RainModelConfig → RainModel
new_rain cfg = record { cfg = cfg; rain_ticks_remaining = 0 }

unfoldable pub raining : RainModel → Bool
raining m = ltb 0 m.rain_ticks_remaining

-- The first part: a dry model may begin to rain.
unfoldable pub begin_rain : RainDraw → RainModel → RainModel
begin_rain draw m =
    if raining m
    then m
    else if draw.starts
    then record m { rain_ticks_remaining = from_range m.cfg.rain_duration_ticks_min draw.duration }
    else m

-- The second part: a tick of rain is used up.
unfoldable pub use_up : RainModel → RainModel × Bool
use_up m =
    if raining m
    then (record m { rain_ticks_remaining = m.rain_ticks_remaining - 1 }, true)
    else (m, false)

unfoldable pub next_rain_detected : RainDraw → RainModel → RainModel × Bool
next_rain_detected draw m = use_up (begin_rain draw m)
