-- ===== src/Emulator/Light.antt =====
-- crates/emulator/src/models/ambient_road_light.rs and its part of config.rs. The jitter is drawn
-- from -a..=a and given as its offset from -a, so that the sum `baseline + jitter - drop` is the
-- difference of two natural numbers. All of them are below 2^17, far from the ends of `i32`.
use sdv_simulation.Prelude.{ℕ, ◌+◌, ◌-◌, Bool, ltb, if◌then◌else◌}
use sdv_simulation.Emulator.{from_range}

pub record AmbientRoadLightModelConfig : Type 0 where
  pub min_lux : ℕ
  pub max_lux : ℕ
  pub baseline_daylight_lux : ℕ
  pub jitter_amplitude_lux : ℕ
  pub tunnel_lux_drop : ℕ
  pub tunnel_duration_ticks_min : ℕ
  pub tunnel_duration_ticks_max : ℕ

pub record AmbientRoadLightModel : Type 0 where
  pub cfg : AmbientRoadLightModelConfig
  pub tunnel_ticks_remaining : ℕ

pub record LightDraw : Type 0 where
  pub enters : Bool
  pub duration : ℕ
  pub jitter : ℕ

-- The profile of `daytime_tunnel_profile`.
abbrev pub daytime_light : AmbientRoadLightModelConfig
daytime_light = record {
  min_lux = 0;
  max_lux = 1200;
  baseline_daylight_lux = 850;
  jitter_amplitude_lux = 35;
  tunnel_lux_drop = 900;
  tunnel_duration_ticks_min = 20;
  tunnel_duration_ticks_max = 80;
}

abbrev pub new_light : AmbientRoadLightModelConfig → AmbientRoadLightModel
new_light cfg = record { cfg = cfg; tunnel_ticks_remaining = 0 }

unfoldable pub in_tunnel : AmbientRoadLightModel → Bool
in_tunnel m = ltb 0 m.tunnel_ticks_remaining

unfoldable pub enter_tunnel : LightDraw → AmbientRoadLightModel → AmbientRoadLightModel
enter_tunnel draw m =
    if in_tunnel m
    then m
    else if draw.enters
    then record m {
      tunnel_ticks_remaining = from_range m.cfg.tunnel_duration_ticks_min draw.duration;
    }
    else m

-- `(plus - minus).clamp(low, high)`.
unfoldable pub clamp_difference : ℕ → ℕ → ℕ → ℕ → ℕ
clamp_difference plus minus low high =
    if ltb plus (minus + low) then low else if ltb (minus + high) plus then high else plus - minus

unfoldable pub shine : LightDraw → AmbientRoadLightModel → AmbientRoadLightModel × ℕ
shine draw m =
    let plus = m.cfg.baseline_daylight_lux + draw.jitter in
    if in_tunnel m
    then (
      record m { tunnel_ticks_remaining = m.tunnel_ticks_remaining - 1 },
      clamp_difference plus (m.cfg.jitter_amplitude_lux + m.cfg.tunnel_lux_drop) m.cfg.min_lux
          m.cfg.max_lux,
    )
    else (m, clamp_difference plus m.cfg.jitter_amplitude_lux m.cfg.min_lux m.cfg.max_lux)

unfoldable pub next_ambient_lux : LightDraw → AmbientRoadLightModel → AmbientRoadLightModel × ℕ
next_ambient_lux draw m = shine draw (enter_tunnel draw m)
