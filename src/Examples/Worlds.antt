-- ===== src/Examples/Worlds.antt =====
-- The emulator, the diagnostics and a late timer at concrete inputs.
use sdv_simulation.Prelude.{ℕ, ◌≤◌, ◌≡◌, refl, true, false, none, some, List, [], ◌∷◌, arith}
use sdv_simulation.Prelude.Result.{ok}
use sdv_simulation.Modes.{FsmState}
use sdv_simulation.Logs.{FrontHeadlampSwitchDirection}
use sdv_simulation.Zones.Headlamp.{HeadlampState, HeadlampMessage}
use sdv_simulation.Fsm.Machineries.{FsmEvent}
use sdv_simulation.Fsm.{step}
use sdv_simulation.Ingress.{VssSignal}
use sdv_simulation.Bus.Policy.{FrontHeadlampPolicy}
use sdv_simulation.Gateway.Streams.{reads, read_all}
use sdv_simulation.Emulator.Light.{LightDraw, daytime_light, next_ambient_lux}
use sdv_simulation.Emulator.Tunnels.{driving, run_light, Dark, JittersFit, tunnel_lasts}
use sdv_simulation.Emulator.Car.{PhysicalCar, Tick, update, publish_round, new_with_config}
use sdv_simulation.Emulator.Publishing.{telemetry, IsConfigured, round_heard}
use sdv_simulation.Diagnostics.{detail_of}
use sdv_simulation.Diagnostics.Truth.{
  IsTrue, is_silent, is_dangerous, names_nothing, warns_of_light, step-IsTrue,
}
use sdv_simulation.Physics.{
  operational_warning_active, speed_threshold_exceeded, extreme_operation_active,
}
use sdv_simulation.Zones.Powertrain.{is_operational_warning_active}
use sdv_simulation.Fsm.Transition.{transition}
use sdv_simulation.Twinlet.{timer_of_state, HeadlampActorState, handle_ack_wait_elapsed}
use sdv_simulation.Twinlet.Timer.{IsArmed, time_out}
use sdv_simulation.Twinlet.Stale.{tell_twinlet, stale_elapse_disarms}
use sdv_simulation.Examples.{lamp, racing}
use sdv_simulation.Examples.Wire.{wire, wire_IsLawful, whole, whole_IsClamping}

abbrev entering : LightDraw
entering = record { enters = true; duration = 0; jitter = 35 }

abbrev nothing_new : LightDraw
nothing_new = record { enters = false; duration = 0; jitter = 0 }

abbrev six : List LightDraw → List LightDraw
six ds = entering ∷ entering ∷ entering ∷ nothing_new ∷ nothing_new ∷ nothing_new ∷ ds

abbrev nineteen : List LightDraw
nineteen = entering ∷ six (six (six []))

high : 35 ≤ 70
high = omega arith

low : 0 ≤ 70
low = omega arith

six_jitters : (ds : List LightDraw) → JittersFit ds → JittersFit (six ds)
six_jitters ds fit = (high, (high, (high, (low, (low, (low, fit))))))

jitters : JittersFit (entering ∷ nineteen)
jitters = (high, (high, six_jitters (six (six [])) (six_jitters (six []) (six_jitters [] tt))))

tunnel_lasts_example :
    Dark (run_light (entering ∷ nineteen) (driving 0))
    × (815 ≤ (next_ambient_lux nothing_new (driving 0)).1)
    × ((next_ambient_lux nothing_new (driving 0)).1 ≤ 885)
tunnel_lasts_example =
    tunnel_lasts entering nineteen nothing_new refl refl jitters (omega arith) refl

abbrev quiet : FrontHeadlampPolicy
quiet = record { pending = none }

abbrev racing_car : PhysicalCar whole
racing_car =
    new_with_config whole
      (record {
        idle_rpm = 800;
        redline_rpm = 7000;
        high_target_rpm = 6500;
        low_target_rpm = 1200;
        target_flip_period_secs = 15;
        proportional_gain = 1;
      })
      daytime_light (record { rain_duration_ticks_min = 30; rain_duration_ticks_max = 60 })

abbrev tick : Tick whole
tick = record {
  now = 0;
  jitter = 5;
  light = entering;
  rain = record { starts = true; duration = 0 };
}

racing_car-IsConfigured : IsConfigured whole whole_IsClamping racing_car
unfolding new_with_config
racing_car-IsConfigured = record {
  rpm_ordered = omega arith;
  rpm_small = omega arith;
  lux_ordered = omega arith;
  lux_small = omega arith;
}

round_heard_example :
    let next = update whole tick racing_car in
    (g1 : ℕ × List ℕ) × (g2 : ℕ × List ℕ) × (g3 : ℕ × List ℕ) × (publish_round whole wire tick
        racing_car
      ≡ (next, ok (g1 ∷ g2 ∷ g3 ∷ [])))
    × (read_all wire quiet (reads (some g1) ∷ reads (some g2) ∷ reads (some g3) ∷ [])
        ≡ telemetry (VssSignal.engine_rpm next.rpm)
          ∷ telemetry (VssSignal.ambient_lux next.ambient_lux)
          ∷ telemetry (VssSignal.rain_detected next.rain_detected)
          ∷ [])
round_heard_example =
    round_heard whole whole_IsClamping wire wire_IsLawful quiet tick racing_car
      racing_car-IsConfigured refl

step-IsTrue_example :
    let next = (step FsmState.driving racing FsmEvent.timer_tick 5).next_state in
    IsTrue (detail_of next racing) racing
    × (names_nothing (detail_of next racing) ≡ is_silent next)
    × (warns_of_light (detail_of next racing) ≡ is_dangerous next)
unfolding step transition is_operational_warning_active operational_warning_active
    speed_threshold_exceeded extreme_operation_active
step-IsTrue_example = step-IsTrue FsmState.driving racing FsmEvent.timer_tick 5 (λ h. cc)

-- The wait for an ON switch has elapsed, with its message in the mailbox when the ACK comes.
abbrev late : HeadlampActorState
late = record {
  ctx = lamp HeadlampState.on_requested (some 7);
  silent = false;
  knows_brain = true;
  ack_timer = timer_of_state HeadlampState.on_requested;
}

stale_elapse_disarms_example :
    let asked =
      tell_twinlet
        (HeadlampMessage.ambient_lux 5000)
        9
        4
        (tell_twinlet HeadlampMessage.ack_on 8 4 late) in
    let told = handle_ack_wait_elapsed FrontHeadlampSwitchDirection.on 10 asked in
    (asked.ctx ≡ lamp HeadlampState.off_requested (some 9))
    × (asked.ack_timer ≡ timer_of_state HeadlampState.off_requested)
    × (told.0.ctx ≡ asked.ctx)
    × (told.0.ack_timer ≡ none)
    × (told.1 ≡ some (time_out FrontHeadlampSwitchDirection.on asked.ctx []))
    × (¬ IsArmed told.0)
stale_elapse_disarms_example =
    stale_elapse_disarms FrontHeadlampSwitchDirection.on 5000 4 8 9 10 late refl refl
