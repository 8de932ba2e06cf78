-- ===== src/Emulator/Tunnels.antt =====
-- Daylight and tunnels, tick by tick: crates/emulator/src/models/ambient_road_light.rs under the
-- daytime profile of config.rs.
use sdv_simulation.Prelude.{
  ℕ, ◌-◌, ◌<◌, ◌≤◌, ◌≡◌, refl, true, false, List, [], ◌∷◌, length, All, Bool-cases, ◌⊎◌, inl, inr,
  arith,
}
use sdv_simulation.Emulator.{from_range}
use sdv_simulation.Emulator.Light.{
  AmbientRoadLightModel, LightDraw, daytime_light, in_tunnel, enter_tunnel, shine, next_ambient_lux,
  clamp_difference,
}

clamp_difference_within :
    (plus minus low high : ℕ)
    → low ≤ high
    → (low ≤ clamp_difference plus minus low high) × (clamp_difference plus minus low high ≤ high)
unfolding clamp_difference
clamp_difference_within plus minus low high h = (ground arith, ground arith)

shine_within :
    (d : LightDraw) (m : AmbientRoadLightModel)
    → m.cfg.min_lux ≤ m.cfg.max_lux
    → (m.cfg.min_lux ≤ (shine d m).1) × ((shine d m).1 ≤ m.cfg.max_lux)
unfolding shine
shine_within d m h = elim (Bool-cases (in_tunnel m)) [
  | inl inside ↦ rw inside (clamp_difference_within _ _ m.cfg.min_lux m.cfg.max_lux h)
  | inr outside ↦ rw outside (clamp_difference_within _ _ m.cfg.min_lux m.cfg.max_lux h)
]

enter_tunnel-cases :
    (d : LightDraw) (m : AmbientRoadLightModel)
    → (enter_tunnel d m ≡ m)
      ⊎ (enter_tunnel d m ≡ record m {
        tunnel_ticks_remaining = from_range m.cfg.tunnel_duration_ticks_min d.duration;
      })
unfolding enter_tunnel
enter_tunnel-cases d m = elim (Bool-cases (in_tunnel m)) [
  | inl inside ↦ inl (rw inside refl)
  | inr outside ↦ elim (Bool-cases d.enters) [
    | inl enters ↦ inr (rw (outside, enters) refl)
    | inr stays ↦ inl (rw (outside, stays) refl)
  ]
]

-- The lux stays between the bounds of the configuration, in any tunnel and at any jitter.
pub next_ambient_lux_within :
    (d : LightDraw) (m : AmbientRoadLightModel)
    → m.cfg.min_lux ≤ m.cfg.max_lux
    → (m.cfg.min_lux ≤ (next_ambient_lux d m).1) × ((next_ambient_lux d m).1 ≤ m.cfg.max_lux)
unfolding next_ambient_lux
next_ambient_lux_within d m h = elim (enter_tunnel-cases d m) [
  | inl same ↦ rw same (shine_within d m h)
  | inr entered ↦ rw entered (
      shine_within d
        (record m {
          tunnel_ticks_remaining = from_range m.cfg.tunnel_duration_ticks_min d.duration;
        })
        h)
]

abbrev pub driving : ℕ → AmbientRoadLightModel
driving ticks = record { cfg = daytime_light; tunnel_ticks_remaining = ticks }

-- The lux under the daytime profile: dark in the tunnel, around 850 outside.
daytime_shine :
    (d : LightDraw) (ticks : ℕ)
    → d.jitter ≤ 70
    → let lux = (shine d (driving ticks)).1 in
      (0 < ticks → lux ≡ 0) × (ticks ≡ 0 → (815 ≤ lux) × (lux ≤ 885))
unfolding shine in_tunnel clamp_difference
daytime_shine d ticks h = (λ t. ground arith, λ t. (ground arith, ground arith))

dark_tick :
    (d : LightDraw) (ticks : ℕ)
    → d.jitter ≤ 70
    → 0 < ticks
    → shine d (driving ticks) ≡ (driving (ticks - 1), 0)
unfolding shine in_tunnel clamp_difference
dark_tick d ticks h t = ground arith

stays_in : (d : LightDraw) (ticks : ℕ) → 0 < ticks → enter_tunnel d (driving ticks) ≡ driving ticks
unfolding enter_tunnel in_tunnel
stays_in d ticks t = ground arith

enters :
    (d : LightDraw)
    → d.enters ≡ true
    → enter_tunnel d (driving 0) ≡ driving (from_range 20 d.duration)
unfolding enter_tunnel in_tunnel
enters d e = rw e refl

-- The model over many ticks, with what it reads at each.
abbrev pub run_light : List LightDraw → AmbientRoadLightModel → AmbientRoadLightModel × List ℕ
unfolding next_ambient_lux
run_light [] m = (m, [])
run_light (d ∷ ds) m =
    let (next, lux) = next_ambient_lux d m in
    let (last, readings) = run_light ds next in (last, lux ∷ readings)

abbrev pub Dark : AmbientRoadLightModel × List ℕ → Type 0
Dark r = (r.0 ≡ driving 0) × All (λ lux. lux ≡ 0) r.1

abbrev pub JittersFit : List LightDraw → Type 0
JittersFit = All (λ d. d.jitter ≤ 70)

stays-Dark :
    (ds : List LightDraw) (ticks : ℕ)
    → JittersFit ds
    → ticks ≡ length ds
    → Dark (run_light ds (driving ticks))
unfolding run_light next_ambient_lux
stays-Dark [] ticks fit h = rw h (refl, tt)
stays-Dark (d ∷ ds) ticks (fit, fits) h =
    let (out, rest) = stays-Dark ds (ticks - 1) fits (omega (arith, h)) in
    rw (stays_in d ticks (omega (arith, h)), dark_tick d ticks fit (omega (arith, h)))
      (out, (refl, rest))

tunnel-Dark :
    (d : LightDraw) (ds : List LightDraw)
    → d.enters ≡ true
    → from_range 20 d.duration ≡ length (d ∷ ds)
    → d.jitter ≤ 70
    → JittersFit ds
    → Dark (run_light (d ∷ ds) (driving 0))
unfolding run_light next_ambient_lux
tunnel-Dark d ds e drawn fit fits =
    let (out, rest) = stays-Dark ds (from_range 20 d.duration - 1) fits (omega (arith, drawn)) in
    rw (enters d e, dark_tick d (from_range 20 d.duration) fit (omega (arith, drawn)))
      (out, (refl, rest))

stays_out : (d : LightDraw) → d.enters ≡ false → enter_tunnel d (driving 0) ≡ driving 0
unfolding enter_tunnel in_tunnel
stays_out d e = rw e refl

daylight :
    (d : LightDraw)
    → d.jitter ≤ 70
    → d.enters ≡ false
    → (815 ≤ (next_ambient_lux d (driving 0)).1) × ((next_ambient_lux d (driving 0)).1 ≤ 885)
unfolding next_ambient_lux
daylight d fit e = rw (stays_out d e) ((daytime_shine d 0 fit).1 refl)

-- Under the daytime profile a tunnel is read as lux 0 for exactly as many ticks as were drawn; the
-- model is outside again after them, where a reading is between 815 and 885, on both sides of the
-- thresholds of the twin's headlamp.
pub tunnel_lasts :
    (d : LightDraw) (ds : List LightDraw) (after : LightDraw)
    → d.enters ≡ true
    → from_range 20 d.duration ≡ length (d ∷ ds)
    → JittersFit (d ∷ ds)
    → after.jitter ≤ 70
    → after.enters ≡ false
    → Dark (run_light (d ∷ ds) (driving 0))
      × (815 ≤ (next_ambient_lux after (driving 0)).1)
      × ((next_ambient_lux after (driving 0)).1 ≤ 885)
tunnel_lasts d ds after e drawn (fit, fits) fit_after stays =
    let (above, below) = daylight after fit_after stays in
    (tunnel-Dark d ds e drawn fit fits, above, below)
