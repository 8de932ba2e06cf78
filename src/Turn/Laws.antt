-- ===== src/Turn/Laws.antt =====
-- The state laws of crates/common/src/digital_twin/car_behaviour_checker.rs across the turns of
-- crates/common/src/twin_runtime/twin_turn.rs that begin in Off.
use sdv_simulation.Prelude.{ℕ, false, ◌≢◌, [], some, ◌≡◌, refl, arith}
use sdv_simulation.Prelude.Result.{ok}
use mathlib.Core.Option.{some-injective}
use sdv_simulation.Physics.{Instant}
use sdv_simulation.Modes.{FsmState, AssemblyId, state_eq}
use sdv_simulation.Zones.{VehicleContext}
use sdv_simulation.Zones.Powertrain
use sdv_simulation.Zones.Headlamp.{HeadlampState}
use sdv_simulation.Zones.Headlamp
use sdv_simulation.Fsm.Machineries.{FsmEvent}
use sdv_simulation.Fsm.{StepResult, step}
use sdv_simulation.Fsm.Transition.{output, transition, from_off}
use sdv_simulation.Twin.Laws.{
  verify_state_laws, law_kinetic_locking_holds, law_rpm_above_threshold_holds,
}
use sdv_simulation.Turn.Replies.{ZoneReplies}
use sdv_simulation.Turn.Zone.{merge_headlamp_for_message, zone_turn, apply_telemetry_rpm}
use sdv_simulation.Turn.{
  apply_single_hop, apply_external_hop, twin_turn, run_to_quiescence, final_step,
}
use sdv_simulation.Turn.Quiescence.{turn_cases}

abbrev pub speed_of : VehicleContext → ℕ
speed_of c = c.powertrain.speed_kph

zone_turn-off-still :
    (c : VehicleContext) (e : FsmEvent) (now : Instant) (r : ZoneReplies)
    → speed_of c ≡ 0
    → speed_of (zone_turn c e FsmState.off now r).ctx ≡ 0
unfolding zone_turn apply_telemetry_rpm Powertrain.freeze_standstill
zone_turn-off-still c (FsmEvent.update_rpm rpm) now r still = refl
zone_turn-off-still c (FsmEvent.assembly_zone_ready AssemblyId.headlamp) now r still = ground arith
zone_turn-off-still c (FsmEvent.assembly_zone_ready AssemblyId.wiper) now r still = ground arith
zone_turn-off-still c _ now r still = still

hop-off-still :
    (c : VehicleContext) (e : FsmEvent) (now : Instant) (r : ZoneReplies)
    → speed_of c ≡ 0
    → speed_of (apply_single_hop FsmState.off c e now r).modified_ctx ≡ 0
unfolding apply_single_hop apply_external_hop step
hop-off-still c (FsmEvent.internal o) now r still = still
hop-off-still c _ now r still = zone_turn-off-still c _ now r still

still-lawful :
    (s : FsmState) (c : VehicleContext)
    → speed_of c ≡ 0
    → state_eq s FsmState.driving ≡ false
    → verify_state_laws s c ≡ ok tt
unfolding verify_state_laws law_kinetic_locking_holds law_rpm_above_threshold_holds
still-lawful FsmState.driving c still h = ground arith
still-lawful FsmState.off c still h = ground arith
still-lawful _ c still h = refl

hop-off-not-driving :
    (c : VehicleContext) (e : FsmEvent) (now : Instant) (r : ZoneReplies)
    → state_eq (apply_single_hop FsmState.off c e now r).next_state FsmState.driving ≡ false
unfolding apply_single_hop apply_external_hop step transition from_off
hop-off-not-driving c e now r = ground arith

hop-off-lawful :
    (c : VehicleContext) (e : FsmEvent) (now : Instant) (r : ZoneReplies)
    → speed_of c ≡ 0
    → let h = apply_single_hop FsmState.off c e now r in
      (speed_of h.modified_ctx ≡ 0) × (verify_state_laws h.next_state h.modified_ctx ≡ ok tt)
hop-off-lawful c e now r still =
    let still' = hop-off-still c e now r still in
    (still', still-lawful _ _ still' (hop-off-not-driving c e now r))

not-driving-calm :
    (s : FsmState) (c : VehicleContext) → state_eq s FsmState.driving ≡ false → s ≢ FsmState.driving
not-driving-calm s c h k = cc

-- A car that is Off and stands still is still at a speed of 0, and in keeping with every state
-- law, after a turn on any event, rpm telemetry of a turning wheel and a power-on included.
off_stays_lawful :
    (c : VehicleContext) (e : FsmEvent) (now : Instant) (r : ZoneReplies)
    → speed_of c ≡ 0
    → (f : StepResult) → final_step (run_to_quiescence FsmState.off c e now r) ≡ some f
    → (speed_of f.modified_ctx ≡ 0) × (verify_state_laws f.next_state f.modified_ctx ≡ ok tt)
off_stays_lawful c e now r still =
    let lawful = hop-off-lawful c e now r still in
    let parked = hop-off-not-driving c e now r in
    turn_cases FsmState.off c e now r
      (λ hops.
        (f : StepResult)
        → final_step hops ≡ some f
        → (speed_of f.modified_ctx ≡ 0) × (verify_state_laws f.next_state f.modified_ctx ≡ ok tt))
      (λ calm f last. rw (some-injective _ _ last) at lawful)
      (λ danger drives f last. absurd (not-driving-calm _ c parked drives))

-- An ON acknowledgement that comes when the car is Off leaves it Off, lights its lamp whatever the
-- lamp's state was, and brings no warning or other action; nothing of it breaks a state law that
-- was kept.
pub late_ack_lights_parked_car :
    (c : VehicleContext) (now : Instant)
    → let f = twin_turn FsmState.off c FsmEvent.front_headlamp_on_ack now in
      (f.next_state ≡ FsmState.off)
      × (f.modified_ctx.headlamp.state ≡ HeadlampState.on)
      × (f.actions ≡ [])
      × (verify_state_laws f.next_state f.modified_ctx ≡ verify_state_laws FsmState.off c)
unfolding twin_turn apply_external_hop step zone_turn merge_headlamp_for_message
    Headlamp.on_receiving_message Headlamp.apply_in_place transition from_off output
    verify_state_laws law_kinetic_locking_holds law_rpm_above_threshold_holds
late_ack_lights_parked_car c now = (refl, refl, refl, refl)
