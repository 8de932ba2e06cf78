-- ===== src/Ingress.antt =====
-- From the bus to the twin's mailbox: crates/common/src/signals.rs (the signals),
-- domain_types.rs (the vocabularies), twin_runtime/connectors/physical_to_digital.rs, and
-- crates/gateway/src/ingress/mapping.rs.
use sdv_simulation.Prelude.{ℕ, Bool, true, false}
use sdv_simulation.Prelude.Double.{F64}
use sdv_simulation.Prelude.Result.{Result, ok, err}
use sdv_simulation.Logs.{FrontHeadlampSwitchDirection, FrontHeadlampIncompleteCause}
use sdv_simulation.Fsm.Machineries.{FsmEvent}
use sdv_simulation.Twin.{DigitalTwinCarVocabulary}

pub data VssSignal : Type 0 where
  vehicle_speed : F64 → VssSignal
  engine_rpm ambient_lux : ℕ → VssSignal
  rain_detected : Bool → VssSignal

pub data VehicleEvent : Type 0 where
  telemetry_update : VssSignal → VehicleEvent
  timer_tick system_reset : VehicleEvent

pub data PhysicalCarVocabulary : Type 0 where
  telemetry_update : VssSignal → PhysicalCarVocabulary
  timer_tick system_reset : PhysicalCarVocabulary
  front_headlamp_command_confirmed front_headlamp_command_rejected : Bool → PhysicalCarVocabulary

pub data ProjectionError : Type 0 where
  -- "observed VehicleSpeed not wired yet; twin derives speed from EngineRpm"
  invalid_payload : ProjectionError

abbrev pub vehicle_event_to_physical_vocabulary : VehicleEvent → PhysicalCarVocabulary
vehicle_event_to_physical_vocabulary (VehicleEvent.telemetry_update vss) =
    PhysicalCarVocabulary.telemetry_update vss
vehicle_event_to_physical_vocabulary VehicleEvent.timer_tick = PhysicalCarVocabulary.timer_tick
vehicle_event_to_physical_vocabulary VehicleEvent.system_reset = PhysicalCarVocabulary.system_reset

abbrev direction : Bool → FrontHeadlampSwitchDirection
direction true = FrontHeadlampSwitchDirection.on
direction false = FrontHeadlampSwitchDirection.off

abbrev pub fsm : FsmEvent → Result ProjectionError DigitalTwinCarVocabulary
fsm event = ok (DigitalTwinCarVocabulary.fsm event)

unfoldable pub project : PhysicalCarVocabulary → Result ProjectionError DigitalTwinCarVocabulary
project (PhysicalCarVocabulary.telemetry_update (VssSignal.vehicle_speed s)) = err invalid_payload
project (PhysicalCarVocabulary.telemetry_update (VssSignal.engine_rpm rpm)) =
    fsm (FsmEvent.update_rpm rpm)
project (PhysicalCarVocabulary.telemetry_update (VssSignal.ambient_lux lux)) =
    fsm (FsmEvent.update_ambient_lux lux)
project (PhysicalCarVocabulary.telemetry_update (VssSignal.rain_detected true)) =
    fsm FsmEvent.rains_started
project (PhysicalCarVocabulary.telemetry_update (VssSignal.rain_detected false)) =
    fsm FsmEvent.rains_stopped
project PhysicalCarVocabulary.timer_tick = fsm FsmEvent.timer_tick
project PhysicalCarVocabulary.system_reset = fsm FsmEvent.power_off
project (PhysicalCarVocabulary.front_headlamp_command_confirmed true) =
    fsm FsmEvent.front_headlamp_on_ack
project (PhysicalCarVocabulary.front_headlamp_command_confirmed false) =
    fsm FsmEvent.front_headlamp_off_ack
project (PhysicalCarVocabulary.front_headlamp_command_rejected on_command) = fsm (
    FsmEvent.front_headlamp_actuation_incomplete (direction on_command)
      FrontHeadlampIncompleteCause.negative_ack)
