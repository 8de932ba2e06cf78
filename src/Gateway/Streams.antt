-- ===== src/Gateway/Streams.antt =====
-- The reader thread and the dispatch loop of crates/gateway/src/gateway_runtime.rs over a whole
-- stream of frames.
use sdv_simulation.Prelude.{ℕ, ◌≡◌, refl, true, false, Option, none, some, List, [], ◌∷◌, All}
use sdv_simulation.Ingress.{VssSignal, PhysicalCarVocabulary, project}
use sdv_simulation.Bus.{FrontHeadlampActuationPayload}
use sdv_simulation.Bus.Policy.{
  FrontHeadlampPolicy, FrontHeadlampPolicyDecision, accept, ignore, on_response,
}
use sdv_simulation.Bus.Accepted.{Projects, on_response_accepts}
use sdv_simulation.Can.{CanBus}
use sdv_simulation.Can.Signals.{from_can_frame}
use sdv_simulation.Can.Headlamp.{decode_payload_from_can_frame}
use sdv_simulation.Gateway.{
  CanIngressEnvelope, physical, actuation_response, hear, hear_signal, hear_decision, hear_payload,
  read_frame,
}
use sdv_simulation.Gateway.Egress.{publish}
use sdv_simulation.Actuation.{ActuationCommand}

abbrev pub content : CanIngressEnvelope → PhysicalCarVocabulary
content (physical heard) = heard
content (actuation_response heard s n) = heard

carried : (a e : CanIngressEnvelope) → some a ≡ some e → Projects (content a) → Projects (content e)
carried a e h there = let same : a ≡ e = cc in rw same at there

hear_signal-Projects :
    (policy : FrontHeadlampPolicy) (signal : VssSignal) (e : CanIngressEnvelope)
    → (hear_signal policy signal).1 ≡ some e
    → Projects (content e)
unfolding project
hear_signal-Projects policy (VssSignal.vehicle_speed s) e h = cc
hear_signal-Projects policy (VssSignal.engine_rpm rpm) e h = carried _ e h (_, refl)
hear_signal-Projects policy (VssSignal.ambient_lux lux) e h = carried _ e h (_, refl)
hear_signal-Projects policy (VssSignal.rain_detected true) e h = carried _ e h (_, refl)
hear_signal-Projects policy (VssSignal.rain_detected false) e h = carried _ e h (_, refl)

hear_decision-Projects :
    (r : FrontHeadlampPolicy × FrontHeadlampPolicyDecision) (e : CanIngressEnvelope)
    → ((heard : PhysicalCarVocabulary) (s n : ℕ) → r.1 ≡ accept heard s n → Projects heard)
    → (hear_decision r).1 ≡ some e
    → Projects (content e)
hear_decision-Projects (p, accept heard s n) e each h = carried _ e h (each heard s n refl)
hear_decision-Projects (p, ignore why) e each h = cc

hear-Projects :
    (policy : FrontHeadlampPolicy) (signal : Option VssSignal)
    (payload : Option FrontHeadlampActuationPayload) (e : CanIngressEnvelope)
    → (hear policy signal payload).1 ≡ some e
    → Projects (content e)
unfolding hear hear_payload
hear-Projects policy (some signal) payload e h = hear_signal-Projects policy signal e h
hear-Projects policy none none e h = cc
hear-Projects policy none (some p) e h =
    hear_decision-Projects (on_response p policy) e
      (λ heard s n a. (on_response_accepts policy p heard s n a).1) h

module _ (bus : CanBus) where
  -- What the reader passes on, of any frame and in any state of the policy, is an event that the
  -- twin has: the loop that submits it never ends on a projection error.
  read_frame-Projects :
      (policy : FrontHeadlampPolicy) (read : Option bus.Frame) (e : CanIngressEnvelope)
      → (read_frame bus policy read).1 ≡ some e
      → Projects (content e)
  unfolding read_frame
  read_frame-Projects policy none e h = cc
  read_frame-Projects policy (some f) e h =
      hear-Projects policy (from_can_frame bus f) (decode_payload_from_can_frame bus f) e h

  abbrev pub passed_on :
      Option CanIngressEnvelope → List CanIngressEnvelope → List CanIngressEnvelope
  passed_on none es = es
  passed_on (some e) es = e ∷ es

  -- What the gateway's threads do to the policy, in the order in which they take its lock: the
  -- reader reads, or the publisher sends a command.
  pub data Turn : Type 0 where
    reads : Option bus.Frame → Turn
    sends : ActuationCommand → Turn

  -- What the reader passes on over such an order.
  unfoldable pub read_all : FrontHeadlampPolicy → List Turn → List CanIngressEnvelope
  read_all policy [] = []
  read_all policy (reads r ∷ turns) =
      let heard = read_frame bus policy r in passed_on heard.1 (read_all heard.0 turns)
  read_all policy (sends c ∷ turns) = read_all (publish bus policy c).0 turns

  passed_on-All :
      (o : Option CanIngressEnvelope) (es : List CanIngressEnvelope)
      → ((e : CanIngressEnvelope) → o ≡ some e → Projects (content e))
      → All (λ e. Projects (content e)) es
      → All (λ e. Projects (content e)) (passed_on o es)
  passed_on-All none es first rest = rest
  passed_on-All (some e) es first rest = (first e refl, rest)

  pub read_all-Projects :
      (policy : FrontHeadlampPolicy) (turns : List Turn)
      → All (λ e. Projects (content e)) (read_all policy turns)
  unfolding read_all
  read_all-Projects policy [] = tt
  read_all-Projects policy (reads r ∷ turns) =
      passed_on-All _ _ (read_frame-Projects policy r)
        (read_all-Projects (read_frame bus policy r).0 turns)
  read_all-Projects policy (sends c ∷ turns) = read_all-Projects (publish bus policy c).0 turns
