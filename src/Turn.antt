-- ===== src/Turn.antt =====
-- L4, a full turn: crates/common/src/twin_runtime/twin_turn.rs with the detectors. The loop of
-- `run_to_quiescence` counts down the hops that `MAX_QUIESCENCE_HOPS` still allows.
pub mod Replies
pub mod Zone
pub mod Quiescence
pub mod Buzzer
pub mod Invariant
pub mod Laws
pub mod Local
pub mod Routine
pub mod Breaches
use sdv_simulation.Prelude.{
  ℕ, zero, suc, Bool, true, false, ◌++◌, List, [], ◌∷◌, Option, none, some, filter, ltb,
  if◌then◌else◌,
}
use sdv_simulation.Physics.{Instant, lux_on_threshold}
use sdv_simulation.Modes.{FsmState, Operational, state_eq}
use sdv_simulation.Zones.{VehicleContext}
use sdv_simulation.Zones.Headlamp.{HeadlampState}
use sdv_simulation.Fsm.Machineries.{FsmEvent, DomainAction, is_recorded}
use sdv_simulation.Fsm.{StepResult, step}
use Replies.{ZoneReplies, simulate_locally, default}
use Zone.{zone_turn, zone_outcomes_to_domain_actions}

abbrev pub is_dark_lamp : HeadlampState → Bool
is_dark_lamp HeadlampState.off = true
is_dark_lamp HeadlampState.ready = true
is_dark_lamp _ = false

unfoldable pub lighting_unsafe_detector : FsmState → VehicleContext → Option FsmEvent
lighting_unsafe_detector exit_state exit_ctx =
    if state_eq exit_state FsmState.driving
    then if ltb lux_on_threshold exit_ctx.visibility.ambient_lux
      then none
      else if is_dark_lamp exit_ctx.headlamp.state
      then some (FsmEvent.internal Operational.lighting_unsafe)
      else none
    else none

unfoldable pub detect_internal_after_hop : FsmState → VehicleContext → Option FsmEvent
unfolding lighting_unsafe_detector
detect_internal_after_hop exit_state exit_ctx = lighting_unsafe_detector exit_state exit_ctx

pub record HopRecord : Type 0 where
  pub event : FsmEvent
  pub result : StepResult

abbrev pub max_quiescence_hops : ℕ
max_quiescence_hops = 8

unfoldable pub apply_internal_hop : FsmState → VehicleContext → FsmEvent → Instant → StepResult
apply_internal_hop s c e now = step s c e now

unfoldable pub apply_external_hop :
    FsmState → VehicleContext → FsmEvent → Instant → ZoneReplies → StepResult
apply_external_hop s c e now r =
    let zone = zone_turn c e s now r in
    let result = step s zone.ctx e now in
    let actions = zone_outcomes_to_domain_actions zone.outcomes ++ result.actions in
    record result {
      actions = actions;
      transition_record = record (result.transition_record) {
        actions = filter is_recorded actions;
      };
    }

unfoldable pub twin_turn : FsmState → VehicleContext → FsmEvent → Instant → StepResult
unfolding apply_external_hop
twin_turn s c e now = apply_external_hop s c e now simulate_locally

unfoldable pub apply_single_hop :
    FsmState → VehicleContext → FsmEvent → Instant → ZoneReplies → StepResult
unfolding apply_internal_hop apply_external_hop
apply_single_hop s c (FsmEvent.internal o) now r = apply_internal_hop s c (FsmEvent.internal o) now
apply_single_hop s c e now r = apply_external_hop s c e now r

-- `if let Some(internal) = … { queue.push(internal) }`.
abbrev pub pushed : Option FsmEvent → List FsmEvent → List FsmEvent
pushed none queue = queue
pushed (some event) queue = queue ++ event ∷ []

unfoldable pub quiesce :
    ℕ → List FsmEvent → FsmState → VehicleContext → Instant → ZoneReplies → List HopRecord
quiesce zero queue s c now r = []
quiesce (suc room) [] s c now r = []
quiesce (suc room) (event ∷ queue) s c now r =
    let result = apply_single_hop s c event now r in
    let queue' = pushed (detect_internal_after_hop result.next_state result.modified_ctx) queue in
    record { event = event; result = result }
    ∷ quiesce room queue' result.next_state result.modified_ctx now default

unfoldable pub run_to_quiescence :
    FsmState → VehicleContext → FsmEvent → Instant → ZoneReplies → List HopRecord
unfolding quiesce
run_to_quiescence s c ingress now r = quiesce max_quiescence_hops (ingress ∷ []) s c now r

pub record ResolvedTurn : Type 0 where
  pub ingress : FsmEvent
  pub now : Instant
  pub zone_replies : ZoneReplies

abbrev pub commit_resolved_turn : FsmState → VehicleContext → ResolvedTurn → List HopRecord
commit_resolved_turn s c resolved =
    run_to_quiescence s c resolved.ingress resolved.now resolved.zone_replies

-- `hops.last().map(|h| &h.result)`; the source panics at `none`.
abbrev pub final_step : List HopRecord → Option StepResult
final_step [] = none
final_step (h ∷ []) = some h.result
final_step (h ∷ k ∷ hops) = final_step (k ∷ hops)

abbrev pub merged_actions : List HopRecord → List DomainAction
merged_actions [] = []
merged_actions (h ∷ hops) = h.result.actions ++ merged_actions hops
