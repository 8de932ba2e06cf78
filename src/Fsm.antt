-- ===== src/Fsm.antt =====
-- L2, the pure step of the operational FSM: crates/common/src/fsm/step.rs. Machineries has the
-- vocabulary and Transition the table; the other children prove what the step does.
pub mod Machineries
pub mod Transition
pub mod Buzzer
pub mod Modes
pub mod Countdown
use sdv_simulation.Prelude.{◌++◌, List, [], ◌∷◌, Option, none, some, filter, filter_map}
use sdv_simulation.Physics.{Instant}
use sdv_simulation.Modes.{FsmState}
use sdv_simulation.Logs.{rejected_power_off}
use sdv_simulation.Zones.{VehicleContext}
use Machineries.{FsmEvent, FsmAction, DomainAction, is_recorded}
use Transition.{TransitionNote, transition, output}

pub record RawTransitionRecord : Type 0 where
  pub at : Instant
  pub event : FsmEvent
  pub old_state : FsmState
  pub next_state : FsmState
  pub old_ctx : VehicleContext
  pub current_ctx : VehicleContext
  pub actions : List DomainAction

pub record StepResult : Type 0 where
  pub next_state : FsmState
  pub modified_ctx : VehicleContext
  pub actions : List DomainAction
  pub transition_record : RawTransitionRecord

abbrev pub map_fsm_action : FsmAction → Option DomainAction
map_fsm_action FsmAction.start_buzzer = some DomainAction.start_buzzer
map_fsm_action FsmAction.stop_buzzer = some DomainAction.stop_buzzer
map_fsm_action FsmAction.publish_state_sync = some DomainAction.publish_state_sync
map_fsm_action (FsmAction.log_warning msg) = some (DomainAction.log_warning msg)
map_fsm_action (FsmAction.start_assemblies l) = some (DomainAction.start_assemblies l)
map_fsm_action (FsmAction.stop_assemblies l) = some (DomainAction.stop_assemblies l)
map_fsm_action FsmAction.none' = none

-- What the note of the transition pushes behind the mapped actions.
abbrev pub note_actions : FsmState → Option TransitionNote → List DomainAction
note_actions s none = []
note_actions s (some TransitionNote.rejected_power_off) =
    DomainAction.log_warning (rejected_power_off s) ∷ []

unfoldable pub step : FsmState → VehicleContext → FsmEvent → Instant → StepResult
step current_state current_ctx event now =
    let t = transition current_state event current_ctx now in
    let actions =
      filter_map map_fsm_action (output current_state t.next_state current_ctx)
      ++ note_actions current_state t.note in
    record {
      next_state = t.next_state;
      modified_ctx = current_ctx;
      actions = actions;
      transition_record = record {
        at = now;
        event = event;
        old_state = current_state;
        next_state = t.next_state;
        old_ctx = current_ctx;
        current_ctx = current_ctx;
        actions = filter is_recorded actions;
      };
    }
