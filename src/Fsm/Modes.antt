-- ===== src/Fsm/Modes.antt =====
-- How the mode moves: the edges of the operational FSM of
-- crates/common/src/fsm/transition_map.rs, and what a step needs to take some of them.
use sdv_simulation.Prelude.{◌+◌, ◌≤◌, Bool, true, false, List, [], ◌∷◌, ◌≡◌, ◌≢◌, refl, arith}
use sdv_simulation.Physics.{
  Instant, from_secs, speed_threshold_exceeded, extreme_operation_active,
  operational_warning_active,
}
use sdv_simulation.Modes.{FsmState, AssemblyId, all_assemblies}
use sdv_simulation.Logs.{rejected_power_off}
use sdv_simulation.Zones.{VehicleContext}
use sdv_simulation.Zones.Powertrain.{is_operational_warning_active}
use sdv_simulation.Fsm.Machineries.{FsmEvent, DomainAction}
use sdv_simulation.Fsm.Transition.{transition, output, without}
use sdv_simulation.Fsm.{step}

infix 40 ◌⟶◌
pub data ◌⟶◌ : FsmState → FsmState → Type 0 where
  stay : (s : FsmState) → s ⟶ s
  power_up : FsmState.off ⟶ FsmState.preparing_to_start all_assemblies
  starting :
      (a : AssemblyId) (r : List AssemblyId)
      → FsmState.preparing_to_start r ⟶ FsmState.preparing_to_start (without a r)
  started :
      (a : AssemblyId) (r : List AssemblyId)
      → without a r ≡ []
      → FsmState.preparing_to_start r ⟶ FsmState.idle
  pull_away : FsmState.idle ⟶ FsmState.driving
  power_down : FsmState.idle ⟶ FsmState.preparing_to_stop all_assemblies
  halt : FsmState.driving ⟶ FsmState.idle
  endanger : FsmState.driving ⟶ FsmState.driving_dangerously
  warn : (t : Instant) → FsmState.driving ⟶ FsmState.extreme_operation_warning t
  light_up : FsmState.driving_dangerously ⟶ FsmState.driving
  halt_in_danger : FsmState.driving_dangerously ⟶ FsmState.idle
  calm : (t : Instant) → FsmState.extreme_operation_warning t ⟶ FsmState.driving
  halt_in_warning : (t : Instant) → FsmState.extreme_operation_warning t ⟶ FsmState.idle
  stopping :
      (a : AssemblyId) (r : List AssemblyId)
      → FsmState.preparing_to_stop r ⟶ FsmState.preparing_to_stop (without a r)
  stopped :
      (a : AssemblyId) (r : List AssemblyId)
      → without a r ≡ []
      → FsmState.preparing_to_stop r ⟶ FsmState.off

ruleset edges = (
  stay, power_up, starting, started, pull_away, power_down, halt, endanger, warn, light_up,
  halt_in_danger, calm, halt_in_warning, stopping, stopped,
)

-- Every step follows an edge of the diagram: no mode is skipped.
pub step-⟶ :
    (s : FsmState) (c : VehicleContext) (e : FsmEvent) (now : Instant)
    → s ⟶ (step s c e now).next_state
unfolding step transition
step-⟶ FsmState.off c e now = grind (arith, edges)
step-⟶ _ c e now = grind (arith, edges)

-- The car goes off only from the shutdown, by the acknowledgement of the last assembly.
pub step-off :
    (s : FsmState) (c : VehicleContext) (e : FsmEvent) (now : Instant)
    → s ≢ FsmState.off
    → (step s c e now).next_state ≡ FsmState.off
    → (r : List AssemblyId) × (a : AssemblyId) × (s ≡ FsmState.preparing_to_stop r)
      × (e ≡ FsmEvent.assembly_zone_ready a)
      × (without a r ≡ [])
unfolding step transition
step-off FsmState.off c e now h k = absurd (h refl)
step-off (FsmState.preparing_to_stop r) c (FsmEvent.assembly_zone_ready a) now h k =
    (r, a, refl, refl, ground arith)
step-off _ c e now h k = ground arith

-- A warning ends only by a heartbeat that comes at least five seconds after it began, at a speed
-- of 160 km/h or less.
pub step_leaves_warning :
    (t : Instant) (c : VehicleContext) (e : FsmEvent) (now : Instant)
    → (step (FsmState.extreme_operation_warning t) c e now).next_state
      ≢ FsmState.extreme_operation_warning t
    → (e ≡ FsmEvent.timer_tick) × (t + from_secs 5 ≤ now) × (c.powertrain.speed_kph ≤ 160)
unfolding step transition is_operational_warning_active operational_warning_active
    speed_threshold_exceeded extreme_operation_active
step_leaves_warning t c FsmEvent.timer_tick now h = ground arith
step_leaves_warning t c _ now h = absurd (h refl)

-- The modes in which the car refuses to be switched off.
abbrev pub refuses_power_off : FsmState → Bool
refuses_power_off FsmState.off = true
refuses_power_off FsmState.driving = true
refuses_power_off FsmState.driving_dangerously = true
refuses_power_off (FsmState.extreme_operation_warning _) = true
refuses_power_off _ = false

-- A refused PowerOff leaves mode and context and does nothing but log the refusal, which the
-- ledger keeps.
pub step-refuses_power_off :
    (s : FsmState) (c : VehicleContext) (now : Instant)
    → refuses_power_off s ≡ true
    → let r = step s c FsmEvent.power_off now in
      (r.next_state ≡ s)
      × (r.modified_ctx ≡ c)
      × (r.actions ≡ DomainAction.log_warning (rejected_power_off s) ∷ [])
      × (r.transition_record.actions ≡ r.actions)
unfolding step transition output
step-refuses_power_off FsmState.off c now h = ground arith
step-refuses_power_off _ c now h = ground arith
