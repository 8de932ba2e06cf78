-- ===== src/Emulator/Spells.antt =====
-- A spell of rain, tick by tick: crates/emulator/src/models/rain.rs.
use sdv_simulation.Prelude.{◌-◌, ◌<◌, ◌≡◌, refl, Bool, true, List, [], ◌∷◌, length, All, arith}
use sdv_simulation.Emulator.{from_range}
use sdv_simulation.Emulator.Rain.{
  RainModel, RainDraw, raining, begin_rain, use_up, next_rain_detected,
}

-- The model over many ticks, with what it reads at each.
abbrev pub run_rain : List RainDraw → RainModel → RainModel × List Bool
unfolding next_rain_detected
run_rain [] m = (m, [])
run_rain (d ∷ ds) m =
    let (next, detected) = next_rain_detected d m in
    let (last, readings) = run_rain ds next in (last, detected ∷ readings)

use_up_raining :
    (m : RainModel)
    → 0 < m.rain_ticks_remaining
    → use_up m ≡ (record m { rain_ticks_remaining = m.rain_ticks_remaining - 1 }, true)
unfolding use_up raining
use_up_raining m h = ground arith

begin_rain_raining :
    (d : RainDraw) (m : RainModel) → 0 < m.rain_ticks_remaining → begin_rain d m ≡ m
unfolding begin_rain raining
begin_rain_raining d m h = ground arith

-- A tick of a spell that goes on.
rain_tick :
    (d : RainDraw) (m : RainModel)
    → 0 < m.rain_ticks_remaining
    → next_rain_detected d m
      ≡ (record m { rain_ticks_remaining = m.rain_ticks_remaining - 1 }, true)
unfolding next_rain_detected
rain_tick d m h = rw (begin_rain_raining d m h) (use_up_raining m h)

abbrev pub Rained : RainModel × List Bool → Type 0
Rained r = (r.0.rain_ticks_remaining ≡ 0) × All (λ detected. detected ≡ true) r.1

keeps_raining :
    (ds : List RainDraw) (m : RainModel)
    → m.rain_ticks_remaining ≡ length ds
    → Rained (run_rain ds m)
unfolding run_rain
keeps_raining [] m h = (h, tt)
keeps_raining (d ∷ ds) m h =
    let (dry, rest) =
      keeps_raining ds (record m { rain_ticks_remaining = m.rain_ticks_remaining - 1 })
        (omega (arith, h)) in
    rw (rain_tick d m (omega (arith, h))) (dry, (refl, rest))

begin_rain_starts :
    (d : RainDraw) (m : RainModel)
    → m.rain_ticks_remaining ≡ 0
    → d.starts ≡ true
    → begin_rain d m
      ≡ record m { rain_ticks_remaining = from_range m.cfg.rain_duration_ticks_min d.duration }
unfolding begin_rain raining
begin_rain_starts d m dry starts = rw starts (ground arith)

first_rain_tick :
    (d : RainDraw) (m : RainModel)
    → m.rain_ticks_remaining ≡ 0
    → d.starts ≡ true
    → 0 < from_range m.cfg.rain_duration_ticks_min d.duration
    → next_rain_detected d m ≡ (
      record m { rain_ticks_remaining = from_range m.cfg.rain_duration_ticks_min d.duration - 1 },
      true,
    )
unfolding next_rain_detected
first_rain_tick d m dry starts some_ticks = rw (begin_rain_starts d m dry starts) (
    use_up_raining
      (record m { rain_ticks_remaining = from_range m.cfg.rain_duration_ticks_min d.duration })
      some_ticks)

-- A spell of rain that starts in a dry model is detected for exactly as many ticks as were drawn,
-- whatever is drawn at the later ones, and the model is dry after them.
rain_lasts :
    (d : RainDraw) (ds : List RainDraw) (m : RainModel)
    → m.rain_ticks_remaining ≡ 0
    → d.starts ≡ true
    → from_range m.cfg.rain_duration_ticks_min d.duration ≡ length (d ∷ ds)
    → Rained (run_rain (d ∷ ds) m)
unfolding run_rain
rain_lasts d ds m dry starts drawn =
    let (last, rest) =
      keeps_raining ds
        (record m {
          rain_ticks_remaining = from_range m.cfg.rain_duration_ticks_min d.duration - 1;
        })
        (omega (arith, drawn)) in
    rw (first_rain_tick d m dry starts (omega (arith, drawn))) (last, (refl, rest))
