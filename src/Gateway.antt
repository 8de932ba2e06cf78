-- ===== src/Gateway.antt =====
-- The gateway: crates/gateway/src/gateway_runtime.rs. Its threads share one policy; a round of
-- each loop is a function of what the loop takes from its socket or channel.
pub mod Egress
pub mod Dispatch
pub mod Confirmation
pub mod Telemetry
pub mod Requests
pub mod Superseded
pub mod Motor
pub mod Streams
pub mod Delivery
use sdv_simulation.Prelude.{ℕ, Option, none, some}
use sdv_simulation.Ingress.{
  VssSignal, VehicleEvent, PhysicalCarVocabulary, vehicle_event_to_physical_vocabulary,
}
use sdv_simulation.Bus.{FrontHeadlampActuationPayload}
use sdv_simulation.Bus.Policy.{
  FrontHeadlampPolicy, FrontHeadlampPolicyDecision, accept, ignore, on_response,
}
use sdv_simulation.Can.{CanBus}
use sdv_simulation.Can.Signals.{from_can_frame}
use sdv_simulation.Can.Headlamp.{decode_payload_from_can_frame}

pub data CanIngressEnvelope : Type 0 where
  physical : PhysicalCarVocabulary → CanIngressEnvelope
  -- physical, session, sequence
  actuation_response : PhysicalCarVocabulary → ℕ → ℕ → CanIngressEnvelope

abbrev pub Heard : Type 0
Heard = FrontHeadlampPolicy × Option CanIngressEnvelope

abbrev pub hear_signal : FrontHeadlampPolicy → VssSignal → Heard
hear_signal policy (VssSignal.vehicle_speed s) = (policy, none)
hear_signal policy (VssSignal.engine_rpm rpm) = (
  policy,
  some (
      physical (
        vehicle_event_to_physical_vocabulary
          (VehicleEvent.telemetry_update (VssSignal.engine_rpm rpm)))),
)
hear_signal policy (VssSignal.ambient_lux lux) = (
  policy,
  some (
      physical (
        vehicle_event_to_physical_vocabulary
          (VehicleEvent.telemetry_update (VssSignal.ambient_lux lux)))),
)
hear_signal policy (VssSignal.rain_detected rain) = (
  policy,
  some (
      physical (
        vehicle_event_to_physical_vocabulary
          (VehicleEvent.telemetry_update (VssSignal.rain_detected rain)))),
)

abbrev pub hear_decision : FrontHeadlampPolicy × FrontHeadlampPolicyDecision → Heard
hear_decision (policy, accept heard session sequence) =
    (policy, some (actuation_response heard session sequence))
hear_decision (policy, ignore reason) = (policy, none)

unfoldable pub hear_payload : FrontHeadlampPolicy → Option FrontHeadlampActuationPayload → Heard
hear_payload policy none = (policy, none)
hear_payload policy (some payload) = hear_decision (on_response payload policy)

unfoldable pub hear :
    FrontHeadlampPolicy → Option VssSignal → Option FrontHeadlampActuationPayload → Heard
hear policy (some signal) payload = hear_signal policy signal
hear policy none payload = hear_payload policy payload

module _ (bus : CanBus) where
  -- A round of the reader thread on what `read_frame` gave, `none` on its failure: the policy, and
  -- what the thread sends on to the dispatch loop.
  unfoldable pub read_frame : FrontHeadlampPolicy → Option bus.Frame → Heard
  read_frame policy none = (policy, none)
  read_frame policy (some f) =
      hear policy (from_can_frame bus f) (decode_payload_from_can_frame bus f)
