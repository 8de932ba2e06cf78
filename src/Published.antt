-- ===== src/Published.antt =====
-- L2.5, the published ledger record: crates/common/src/published.rs. A `Duration` since the Unix
-- epoch is counted in nanoseconds; the serialisation of the types is the serde library's.
pub mod Types
pub mod Record
pub mod Faithful
use sdv_simulation.Prelude.{ℕ, ◌+◌, Option, none, some}
use sdv_simulation.Physics.{Instant, Duration, duration_since}
use sdv_simulation.Modes.{FsmState}
use sdv_simulation.Zones.{VehicleContext}
use sdv_simulation.Zones.Headlamp.{HeadlampContext}
use Types.{
  PublishedFsmState, PublishedHeadlampContext, PublishedVehicleContext, headlamp_state_of,
  powertrain_of, health_of, visibility_of,
}

pub record SessionEpoch : Type 0 where
  pub started_at_instant : Instant
  pub started_at_unix : Duration

unfoldable pub project : Instant → SessionEpoch → Duration
project t epoch = epoch.started_at_unix + duration_since t epoch.started_at_instant

abbrev pub session_id_nanos : SessionEpoch → ℕ
session_id_nanos epoch = epoch.started_at_unix

unfoldable pub fsm_state : SessionEpoch → FsmState → PublishedFsmState
unfolding project
fsm_state epoch FsmState.off = PublishedFsmState.off
fsm_state epoch (FsmState.preparing_to_start _) = PublishedFsmState.preparing_to_start
fsm_state epoch FsmState.idle = PublishedFsmState.idle
fsm_state epoch FsmState.driving = PublishedFsmState.driving
fsm_state epoch FsmState.driving_dangerously = PublishedFsmState.driving_dangerously
fsm_state epoch (FsmState.extreme_operation_warning at') =
    PublishedFsmState.extreme_operation_warning (project at' epoch)
fsm_state epoch (FsmState.preparing_to_stop _) = PublishedFsmState.preparing_to_stop

unfoldable pub headlamp : SessionEpoch → HeadlampContext → PublishedHeadlampContext
unfolding project
headlamp epoch h = record {
  state = headlamp_state_of h.state;
  ack_pending_since_unix = elim h.ack_pending_since [
    | none ↦ none
    | some t ↦ some (project t epoch)
  ];
}

unfoldable pub vehicle_context : SessionEpoch → VehicleContext → PublishedVehicleContext
unfolding headlamp
vehicle_context epoch ctx = record {
  powertrain = powertrain_of ctx.powertrain;
  health = health_of ctx.health;
  visibility = visibility_of ctx.visibility;
  headlamp = headlamp epoch ctx.headlamp;
}
