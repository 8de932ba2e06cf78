-- ===== src/Turn/Breaches.antt =====
-- Turns of crates/common/src/twin_runtime/twin_turn.rs that end in breach of a state law of
-- crates/common/src/digital_twin/car_behaviour_checker.rs.
use sdv_simulation.Prelude.{ℕ, ◌≤◌, ◌≢◌, ◌<◌, [], ◌∷◌, some, ◌≡◌, refl, sym, ◌∙◌, arith}
use sdv_simulation.Prelude.Result.{err}
use mathlib.Core.Option.{some-injective}
use sdv_simulation.Physics.{
  Instant, rounded_speed_kph, operational_warning_active, speed_threshold_exceeded,
  extreme_operation_active,
}
use sdv_simulation.Modes.{FsmState, AssemblyId}
use sdv_simulation.Zones.{VehicleContext}
use sdv_simulation.Zones.Powertrain
use sdv_simulation.Fsm.Machineries.{FsmEvent}
use sdv_simulation.Fsm.{StepResult, step}
use sdv_simulation.Fsm.Transition.{transition, from_driving, from_preparing_to_stop}
use sdv_simulation.Twin.Laws.{
  moving_while_off, rpm_too_low, verify_state_laws, law_kinetic_locking_holds,
  law_rpm_above_threshold_holds,
}
use sdv_simulation.Turn.Replies.{ZoneReplies, simulate_locally}
use sdv_simulation.Turn.Zone.{zone_turn, apply_telemetry_rpm}
use sdv_simulation.Turn.{
  apply_single_hop, apply_external_hop, twin_turn, run_to_quiescence, final_step,
}
use sdv_simulation.Turn.Quiescence.{turn_cases}
use sdv_simulation.Turn.Laws.{speed_of}

off-≢-driving : FsmState.off ≢ FsmState.driving
off-≢-driving h = cc

moving-unlawful :
    (c : VehicleContext)
    → 0 < speed_of c
    → verify_state_laws FsmState.off c
      ≡ err (record { law = "kinetic_locking"; detail = moving_while_off (speed_of c) } ∷ [])
unfolding verify_state_laws law_kinetic_locking_holds law_rpm_above_threshold_holds
moving-unlawful c moves = ground arith

zone_ready-speed :
    (c : VehicleContext) (a : AssemblyId) (s : FsmState) (now : Instant) (r : ZoneReplies)
    → speed_of (zone_turn c (FsmEvent.assembly_zone_ready a) s now r).ctx ≡ speed_of c
unfolding zone_turn
zone_ready-speed c AssemblyId.headlamp s now r = ground arith
zone_ready-speed c AssemblyId.wiper s now r = ground arith

last_ack-off :
    (c : VehicleContext) (a : AssemblyId) (now : Instant)
    → (transition
        (FsmState.preparing_to_stop (a ∷ []))
        (FsmEvent.assembly_zone_ready a)
        c
        now).next_state
      ≡ FsmState.off
unfolding transition from_preparing_to_stop
last_ack-off c AssemblyId.headlamp now = refl
last_ack-off c AssemblyId.wiper now = refl

abbrev shutdown_hop : VehicleContext → AssemblyId → Instant → ZoneReplies → StepResult
shutdown_hop c a now r =
    apply_single_hop (FsmState.preparing_to_stop (a ∷ [])) c (FsmEvent.assembly_zone_ready a) now r

shutdown_hop_lem :
    (c : VehicleContext) (a : AssemblyId) (now : Instant) (r : ZoneReplies)
    → 0 < speed_of c
    → let h = shutdown_hop c a now r in
      (h.next_state ≡ FsmState.off)
      × (speed_of h.modified_ctx ≡ speed_of c)
      × (verify_state_laws h.next_state h.modified_ctx
          ≡ err (record { law = "kinetic_locking"; detail = moving_while_off (speed_of c) } ∷ []))
unfolding apply_single_hop apply_external_hop step
shutdown_hop_lem c a now r moves =
    let z =
      (zone_turn c (FsmEvent.assembly_zone_ready a) (FsmState.preparing_to_stop (a ∷ [])) now
        r).ctx in
    let same = zone_ready-speed c a (FsmState.preparing_to_stop (a ∷ [])) now r in
    let ends = last_ack-off z a now in
    (ends, same, rw ends (rw same at (moving-unlawful z (rw same moves))))

-- When the last assembly that a shutdown waits for is acknowledged, the turn ends in Off and
-- leaves the speed as it is; where the car is moving, that breaks the kinetic locking law, and the
-- violation names the speed. The mode PreparingToStop is entered from Idle whatever the speed.
pub shutdown_breaks_locking :
    (c : VehicleContext) (a : AssemblyId) (now : Instant) (r : ZoneReplies)
    → 0 < speed_of c
    → (f : StepResult)
    → final_step (
        run_to_quiescence
          (FsmState.preparing_to_stop (a ∷ []))
          c
          (FsmEvent.assembly_zone_ready a)
          now
          r)
      ≡ some f
    → (f.next_state ≡ FsmState.off)
      × (speed_of f.modified_ctx ≡ speed_of c)
      × (verify_state_laws f.next_state f.modified_ctx
          ≡ err (record { law = "kinetic_locking"; detail = moving_while_off (speed_of c) } ∷ []))
shutdown_breaks_locking c a now r moves =
    let broken = shutdown_hop_lem c a now r moves in
    turn_cases (FsmState.preparing_to_stop (a ∷ [])) c (FsmEvent.assembly_zone_ready a) now r
      (λ hops.
        (f : StepResult)
        → final_step hops ≡ some f
        → (f.next_state ≡ FsmState.off)
          × (speed_of f.modified_ctx ≡ speed_of c)
          × (verify_state_laws f.next_state f.modified_ctx
              ≡ err (
                  record { law = "kinetic_locking"; detail = moving_while_off (speed_of c) } ∷ [])))
      (λ calm f last. rw (some-injective _ _ last) at broken)
      (λ danger drives f last. absurd (off-≢-driving (sym broken.0 ∙ drives)))

-- Between standing and the warning, rpm telemetry leaves the mode Driving.
slow-transition :
    (c : VehicleContext) (rpm : ℕ) (now : Instant)
    → 0 < speed_of c
    → speed_of c ≤ 160
    → (transition FsmState.driving (FsmEvent.update_rpm rpm) c now).next_state ≡ FsmState.driving
unfolding transition from_driving Powertrain.is_operational_warning_active Powertrain.is_stationary
    operational_warning_active speed_threshold_exceeded extreme_operation_active
slow-transition c rpm now lo hi = ground arith

slow-speed :
    (rpm : ℕ) → 5 ≤ rpm → rpm ≤ 1000 → (0 < rounded_speed_kph rpm) × (rounded_speed_kph rpm ≤ 160)
unfolding rounded_speed_kph
slow-speed rpm lo hi = (omega arith, omega arith)

slow-unlawful :
    (c : VehicleContext)
    → c.powertrain.wheel_rpm.front_left ≤ 1000
    → verify_state_laws FsmState.driving c
      ≡ err (record { law = "rpm_above_threshold"; detail = rpm_too_low } ∷ [])
unfolding verify_state_laws law_kinetic_locking_holds law_rpm_above_threshold_holds
slow-unlawful c hi = ground arith

-- Driving, a turn on rpm telemetry from 5 to 1000 stays in Driving, and the ledger's state breaks
-- the law that says rpm is above 1000 there.
pub slow_driving_breaks_law :
    (c : VehicleContext) (rpm : ℕ) (now : Instant)
    → 5 ≤ rpm
    → rpm ≤ 1000
    → let f = twin_turn FsmState.driving c (FsmEvent.update_rpm rpm) now in
      (f.next_state ≡ FsmState.driving)
      × (verify_state_laws f.next_state f.modified_ctx
          ≡ err (record { law = "rpm_above_threshold"; detail = rpm_too_low } ∷ []))
unfolding twin_turn apply_external_hop step zone_turn apply_telemetry_rpm Powertrain.apply_rpm
    Powertrain.refresh_speed
slow_driving_breaks_law c rpm now lo hi =
    let driven = zone_turn c (FsmEvent.update_rpm rpm) FsmState.driving now simulate_locally in
    let speed = slow-speed rpm lo hi in
    let drives = slow-transition driven.ctx rpm now speed.0 speed.1 in
    (drives, rw drives (slow-unlawful driven.ctx hi))
