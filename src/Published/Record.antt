-- ===== src/Published/Record.antt =====
-- `PublishedTransitionRecord` of crates/common/src/published.rs.
use sdv_simulation.Prelude.{ℕ, List, filter_map}
use sdv_simulation.Physics.{Duration}
use sdv_simulation.Fsm.{RawTransitionRecord}
use sdv_simulation.Twin.Identity.{Text}
use sdv_simulation.Published.{SessionEpoch, session_id_nanos, fsm_state, vehicle_context}
use sdv_simulation.Published
use sdv_simulation.Published.Types.{
  PublishedFsmEvent, PublishedFsmState, PublishedVehicleContext, PublishedDomainAction, event_of,
  project_action,
}

pub record PublishedTransitionRecord : Type 0 where
  pub car_identity : Text
  pub session_epoch_unix_nanos : ℕ
  pub record_seq : ℕ
  pub at_unix : Duration
  pub event : PublishedFsmEvent
  pub old_state : PublishedFsmState
  pub next_state : PublishedFsmState
  pub old_ctx : PublishedVehicleContext
  pub current_ctx : PublishedVehicleContext
  pub actions : List PublishedDomainAction

unfoldable pub project : RawTransitionRecord → Text → ℕ → SessionEpoch → PublishedTransitionRecord
unfolding Published.project event_of fsm_state vehicle_context
project raw car_identity record_seq epoch = record {
  car_identity = car_identity;
  session_epoch_unix_nanos = session_id_nanos epoch;
  record_seq = record_seq;
  at_unix = Published.project raw.at epoch;
  event = event_of raw.event;
  old_state = fsm_state epoch raw.old_state;
  next_state = fsm_state epoch raw.next_state;
  old_ctx = vehicle_context epoch raw.old_ctx;
  current_ctx = vehicle_context epoch raw.current_ctx;
  actions = filter_map project_action raw.actions;
}
