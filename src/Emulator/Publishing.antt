-- ===== src/Emulator/Publishing.antt =====
-- A round of the emulator, to the gateway: crates/emulator/src/main.rs and car_physics.rs, and the
-- reader of crates/gateway/src/gateway_runtime.rs.
use sdv_simulation.Prelude.{ℕ, ◌<◌, ◌≤◌, ◌≡◌, refl, ap, Bool, false, some, [], ◌∷◌, arith}
use sdv_simulation.Prelude.Result.{ok}
use sdv_simulation.Ingress.{VssSignal, PhysicalCarVocabulary}
use sdv_simulation.Bus.Policy.{FrontHeadlampPolicy}
use sdv_simulation.Can.{CanBus, IsLawful}
use sdv_simulation.Can.Signals.{to_can_frame}
use sdv_simulation.Gateway.{CanIngressEnvelope, physical, read_frame, hear_signal}
use sdv_simulation.Gateway.Telemetry.{signal_heard}
use sdv_simulation.Gateway.Streams.{reads, read_all}
use sdv_simulation.Emulator.Tunnels.{next_ambient_lux_within}
use sdv_simulation.Emulator.Rpm.{F32, IsClamping, moved_rpm, next_rpm}
use sdv_simulation.Emulator.Car.{PhysicalCar, Tick, update, write_all, publish_round, signals}

abbrev pub telemetry : VssSignal → CanIngressEnvelope
telemetry signal = physical (PhysicalCarVocabulary.telemetry_update signal)

module _ (f : F32) (clamping : IsClamping f) where
  -- The bounds of the rpm and of the lux are in order and fit sixteen bits.
  pub record IsConfigured (car : PhysicalCar f) : Type 0 where
    pub rpm_ordered : car.rpm_model.idle_rpm ≤ car.rpm_model.redline_rpm
    pub rpm_small : car.rpm_model.redline_rpm < 65536
    pub lux_ordered :
        car.ambient_road_light_model.cfg.min_lux ≤ car.ambient_road_light_model.cfg.max_lux
    pub lux_small : car.ambient_road_light_model.cfg.max_lux < 65536

  -- An update leaves the rpm between idle and redline and the lux between its bounds.
  update_within :
      (t : Tick f) (car : PhysicalCar f)
      → IsConfigured car
      → f.is_nan (moved_rpm f car.rpm_model t.jitter car.rpm t.now) ≡ false
      → let next = update f t car in
        (car.rpm_model.idle_rpm ≤ next.rpm)
        × (next.rpm ≤ car.rpm_model.redline_rpm)
        × (car.ambient_road_light_model.cfg.min_lux ≤ next.ambient_lux)
        × (next.ambient_lux ≤ car.ambient_road_light_model.cfg.max_lux)
  unfolding update next_rpm
  update_within t car c number =
      let (above, below) =
        clamping.clamp_within _ car.rpm_model.idle_rpm car.rpm_model.redline_rpm number
          c.rpm_ordered in
      let (lit, dim) = next_ambient_lux_within t.light car.ambient_road_light_model c.lux_ordered in
      (above, below, lit, dim)

  module _ (bus : CanBus) (lawful : IsLawful bus) where
    written :
        (car : PhysicalCar f) (g1 g2 g3 : bus.Frame)
        → to_can_frame bus (VssSignal.engine_rpm car.rpm) ≡ ok g1
        → to_can_frame bus (VssSignal.ambient_lux car.ambient_lux) ≡ ok g2
        → to_can_frame bus (VssSignal.rain_detected car.rain_detected) ≡ ok g3
        → write_all f bus (signals f bus car) ≡ ok (g1 ∷ g2 ∷ g3 ∷ [])
    unfolding write_all
    written car g1 g2 g3 e1 e2 e3 = rw (e1, e2, e3) refl

    heard_in_order :
        (policy : FrontHeadlampPolicy) (g1 g2 g3 : bus.Frame) (rpm lux : ℕ) (rain : Bool)
        → ((p : FrontHeadlampPolicy)
            → read_frame bus p (some g1) ≡ hear_signal p (VssSignal.engine_rpm rpm))
        → ((p : FrontHeadlampPolicy)
            → read_frame bus p (some g2) ≡ hear_signal p (VssSignal.ambient_lux lux))
        → ((p : FrontHeadlampPolicy)
            → read_frame bus p (some g3) ≡ hear_signal p (VssSignal.rain_detected rain))
        → read_all bus policy (reads (some g1) ∷ reads (some g2) ∷ reads (some g3) ∷ [])
          ≡ telemetry (VssSignal.engine_rpm rpm)
            ∷ telemetry (VssSignal.ambient_lux lux)
            ∷ telemetry (VssSignal.rain_detected rain)
            ∷ []
    unfolding read_all
    heard_in_order policy g1 g2 g3 rpm lux rain h1 h2 h3 = rw (h1 policy, h2 policy, h3 policy) refl

    -- From a car whose configuration fits, a round of the emulator writes three frames, without a
    -- failure, and the gateway's reader passes on from them the rpm, the lux and the rain of the
    -- updated car, in this order.
    pub round_heard :
        (policy : FrontHeadlampPolicy) (t : Tick f) (car : PhysicalCar f)
        → IsConfigured car
        → f.is_nan (moved_rpm f car.rpm_model t.jitter car.rpm t.now) ≡ false
        → let next = update f t car in
          (g1 : bus.Frame) × (g2 : bus.Frame) × (g3 : bus.Frame) × (publish_round f bus t car
            ≡ (next, ok (g1 ∷ g2 ∷ g3 ∷ [])))
          × (read_all bus policy (reads (some g1) ∷ reads (some g2) ∷ reads (some g3) ∷ [])
              ≡ telemetry (VssSignal.engine_rpm next.rpm)
                ∷ telemetry (VssSignal.ambient_lux next.ambient_lux)
                ∷ telemetry (VssSignal.rain_detected next.rain_detected)
                ∷ [])
    unfolding publish_round
    round_heard policy t car c number =
        let next = update f t car in
        let (_, rpm_fits, _, lux_fits) = update_within t car c number in
        let (g1, e1, h1) =
          signal_heard bus lawful (VssSignal.engine_rpm next.rpm)
            (omega (arith, rpm_fits, c.rpm_small)) in
        let (g2, e2, h2) =
          signal_heard bus lawful (VssSignal.ambient_lux next.ambient_lux)
            (omega (arith, lux_fits, c.lux_small)) in
        let (g3, e3, h3) =
          signal_heard bus lawful (VssSignal.rain_detected next.rain_detected) tt in
        (
          g1,
          g2,
          g3,
          ap (λ w. (next, w)) (written next g1 g2 g3 e1 e2 e3),
          heard_in_order policy g1 g2 g3 _ _ _ h1 h2 h3,
        )
