-- ===== src/Published/Types.antt =====
-- The mirror types of crates/common/src/published.rs and the `From` impls into them.
use sdv_simulation.Prelude.{ℕ, Bool, Option, none, some}
use sdv_simulation.Physics.{Duration}
use sdv_simulation.Modes.{Operational}
use sdv_simulation.Logs.{LogText, FrontHeadlampSwitchDirection, FrontHeadlampIncompleteCause}
use sdv_simulation.Zones.{VehicleHealthContext, VisibilityContext}
use sdv_simulation.Zones.Powertrain.{WheelRpm, PowertrainContext}
use sdv_simulation.Zones.Headlamp.{HeadlampState}
use sdv_simulation.Fsm.Machineries.{FsmEvent, DomainAction}

pub data PublishedHeadlampState : Type 0 where
  off ready on_requested on off_requested : PublishedHeadlampState

unfoldable pub headlamp_state_of : HeadlampState → PublishedHeadlampState
headlamp_state_of HeadlampState.off = PublishedHeadlampState.off
headlamp_state_of HeadlampState.ready = PublishedHeadlampState.ready
headlamp_state_of HeadlampState.on_requested = PublishedHeadlampState.on_requested
headlamp_state_of HeadlampState.on = PublishedHeadlampState.on
headlamp_state_of HeadlampState.off_requested = PublishedHeadlampState.off_requested

pub data PublishedFrontHeadlampSwitchDirection : Type 0 where
  on off : PublishedFrontHeadlampSwitchDirection

unfoldable pub direction_of : FrontHeadlampSwitchDirection → PublishedFrontHeadlampSwitchDirection
direction_of FrontHeadlampSwitchDirection.on = PublishedFrontHeadlampSwitchDirection.on
direction_of FrontHeadlampSwitchDirection.off = PublishedFrontHeadlampSwitchDirection.off

pub data PublishedFrontHeadlampIncompleteCause : Type 0 where
  timed_out negative_ack : PublishedFrontHeadlampIncompleteCause

unfoldable pub cause_of : FrontHeadlampIncompleteCause → PublishedFrontHeadlampIncompleteCause
cause_of FrontHeadlampIncompleteCause.timed_out = PublishedFrontHeadlampIncompleteCause.timed_out
cause_of FrontHeadlampIncompleteCause.negative_ack =
    PublishedFrontHeadlampIncompleteCause.negative_ack

pub data PublishedOperational : Type 0 where
  lighting_unsafe : PublishedOperational

abbrev pub operational_of : Operational → PublishedOperational
operational_of Operational.lighting_unsafe = PublishedOperational.lighting_unsafe

pub data PublishedFsmEvent : Type 0 where
  power_on power_off : PublishedFsmEvent
  update_rpm update_ambient_lux : ℕ → PublishedFsmEvent
  front_headlamp_on_ack front_headlamp_off_ack : PublishedFsmEvent
  front_headlamp_actuation_incomplete :
      PublishedFrontHeadlampSwitchDirection
      → PublishedFrontHeadlampIncompleteCause
      → PublishedFsmEvent
  timer_tick : PublishedFsmEvent
  internal : PublishedOperational → PublishedFsmEvent

unfoldable pub event_of : FsmEvent → PublishedFsmEvent
unfolding direction_of cause_of
event_of FsmEvent.power_on = PublishedFsmEvent.power_on
event_of FsmEvent.power_off = PublishedFsmEvent.power_off
event_of (FsmEvent.update_rpm rpm) = PublishedFsmEvent.update_rpm rpm
event_of (FsmEvent.update_ambient_lux lux) = PublishedFsmEvent.update_ambient_lux lux
event_of FsmEvent.front_headlamp_on_ack = PublishedFsmEvent.front_headlamp_on_ack
event_of FsmEvent.front_headlamp_off_ack = PublishedFsmEvent.front_headlamp_off_ack
event_of (FsmEvent.front_headlamp_actuation_incomplete direction cause) =
    PublishedFsmEvent.front_headlamp_actuation_incomplete (direction_of direction) (cause_of cause)
event_of FsmEvent.timer_tick = PublishedFsmEvent.timer_tick
event_of (FsmEvent.internal op) = PublishedFsmEvent.internal (operational_of op)
event_of (FsmEvent.assembly_zone_ready _) = PublishedFsmEvent.timer_tick
event_of FsmEvent.rains_started = PublishedFsmEvent.timer_tick
event_of FsmEvent.rains_stopped = PublishedFsmEvent.timer_tick

pub data PublishedDomainAction : Type 0 where
  start_buzzer stop_buzzer publish_state_sync : PublishedDomainAction
  log_warning : LogText → PublishedDomainAction
  request_front_headlamp_on request_front_headlamp_off : PublishedDomainAction
  request_wiper_start request_wiper_stop : PublishedDomainAction

abbrev pub project_action : DomainAction → Option PublishedDomainAction
project_action DomainAction.start_buzzer = some PublishedDomainAction.start_buzzer
project_action DomainAction.stop_buzzer = some PublishedDomainAction.stop_buzzer
project_action DomainAction.publish_state_sync = some PublishedDomainAction.publish_state_sync
project_action (DomainAction.log_warning msg) = some (PublishedDomainAction.log_warning msg)
project_action DomainAction.request_front_headlamp_on =
    some PublishedDomainAction.request_front_headlamp_on
project_action DomainAction.request_front_headlamp_off =
    some PublishedDomainAction.request_front_headlamp_off
project_action DomainAction.request_wiper_start = some PublishedDomainAction.request_wiper_start
project_action DomainAction.request_wiper_stop = some PublishedDomainAction.request_wiper_stop
project_action (DomainAction.start_assemblies _) = none
project_action (DomainAction.stop_assemblies _) = none

pub data PublishedFsmState : Type 0 where
  off preparing_to_start idle driving driving_dangerously : PublishedFsmState
  extreme_operation_warning : Duration → PublishedFsmState
  preparing_to_stop : PublishedFsmState

pub record PublishedWheelRpm : Type 0 where
  pub front_left : ℕ
  pub front_right : ℕ
  pub rear_left : ℕ
  pub rear_right : ℕ

abbrev pub wheel_rpm_of : WheelRpm → PublishedWheelRpm
wheel_rpm_of w = record {
  front_left = w.front_left;
  front_right = w.front_right;
  rear_left = w.rear_left;
  rear_right = w.rear_right;
}

pub record PublishedPowertrainContext : Type 0 where
  pub wheel_rpm : PublishedWheelRpm
  pub speed_kph : ℕ

abbrev pub powertrain_of : PowertrainContext → PublishedPowertrainContext
powertrain_of p = record { wheel_rpm = wheel_rpm_of p.wheel_rpm; speed_kph = p.speed_kph }

pub record PublishedHealthContext : Type 0 where
  pub fuel_level_pct : ℕ
  pub oil_pressure_kpa : ℕ
  pub tyre_pressure_ok : Bool

abbrev pub health_of : VehicleHealthContext → PublishedHealthContext
health_of h = record {
  fuel_level_pct = h.fuel_level_pct;
  oil_pressure_kpa = h.oil_pressure_kpa;
  tyre_pressure_ok = h.tyre_pressure_ok;
}

pub record PublishedVisibilityContext : Type 0 where
  pub ambient_lux : ℕ

abbrev pub visibility_of : VisibilityContext → PublishedVisibilityContext
visibility_of v = record { ambient_lux = v.ambient_lux }

pub record PublishedHeadlampContext : Type 0 where
  pub state : PublishedHeadlampState
  pub ack_pending_since_unix : Option Duration

pub record PublishedVehicleContext : Type 0 where
  pub powertrain : PublishedPowertrainContext
  pub health : PublishedHealthContext
  pub visibility : PublishedVisibilityContext
  pub headlamp : PublishedHeadlampContext
