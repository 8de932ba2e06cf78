-- ===== src/Bus/Accepted.antt =====
-- What the policy accepts: the physical event of the payload's kind, and nothing else
-- (`FrontHeadlampPolicy::on_response` of devices/front_headlamp/policy.rs in
-- crates/vehicle_device_bus/src).
use sdv_simulation.Prelude.{
  ℕ, ◌≡◌, ◌≢◌, ◌⊎◌, inl, inr, refl, Bool, true, false, not, ◌||◌, Option, none, some, ◌==◌,
  Bool-cases, arith,
}
use sdv_simulation.Fsm.Machineries.{FsmEvent}
use sdv_simulation.Ingress.{VssSignal, PhysicalCarVocabulary, project, fsm}
use sdv_simulation.Bus.{FrontHeadlampActuationPayload, payload_to_physical}
use sdv_simulation.Bus.Policy.{
  FrontHeadlampPolicy, PendingFrontHeadlampCommand, accept, mapped, correlate, judge, on_response,
  IgnoreReason, response_type, bool_eq, is_confirmed,
}

-- The twin has an event for it.
abbrev pub Projects : PhysicalCarVocabulary → Type 0
Projects heard = (event : FsmEvent) × (project heard ≡ fsm event)

response_not_telemetry :
    (p : FrontHeadlampActuationPayload) (vss : VssSignal)
    → payload_to_physical p ≢ some (PhysicalCarVocabulary.telemetry_update vss)
unfolding payload_to_physical
response_not_telemetry p vss e = ground (arith, e)

response_Projects :
    (p : FrontHeadlampActuationPayload) (heard : PhysicalCarVocabulary)
    → payload_to_physical p ≡ some heard
    → Projects heard
unfolding project payload_to_physical
response_Projects p (PhysicalCarVocabulary.telemetry_update vss) e =
    absurd (response_not_telemetry p vss e)
response_Projects p PhysicalCarVocabulary.timer_tick e = (_, refl)
response_Projects p PhysicalCarVocabulary.system_reset e = (_, refl)
response_Projects p (PhysicalCarVocabulary.front_headlamp_command_confirmed true) e = (_, refl)
response_Projects p (PhysicalCarVocabulary.front_headlamp_command_confirmed false) e = (_, refl)
response_Projects p (PhysicalCarVocabulary.front_headlamp_command_rejected on) e = (_, refl)

module _ (p : FrontHeadlampPolicy) (payload : FrontHeadlampActuationPayload)
    (heard : PhysicalCarVocabulary) (s n : ℕ) where
  mapped_accepts :
      (is_ack : Bool) (o : Option PhysicalCarVocabulary)
      → (mapped p is_ack payload o).1 ≡ accept heard s n
      → o ≡ some heard
  mapped_accepts is_ack none e = cc
  mapped_accepts is_ack (some physical) e =
      elim (Bool-cases (bool_eq is_ack (is_confirmed physical))) [
        | inl same ↦ (let f = rw same at e in cc)
        | inr other ↦ (let f = rw other at e in cc)
      ]

  correlate_accepts :
      (on is_ack : Bool) (o : Option PendingFrontHeadlampCommand)
      → (correlate p on is_ack payload o).1 ≡ accept heard s n
      → payload_to_physical payload ≡ some heard
  unfolding correlate
  correlate_accepts on is_ack none e = cc
  correlate_accepts on is_ack (some q) e =
      elim (Bool-cases
        (not (q.session == payload.session_id) || not (q.sequence == payload.sequence_no))) [
          | inl foreign ↦ (let f = rw foreign at e in cc)
          | inr own ↦ elim (Bool-cases (not (bool_eq q.on_command on))) [
            | inl against ↦ (let f = rw (own, against) at e in cc)
            | inr along ↦ mapped_accepts is_ack (payload_to_physical payload) (rw (own, along) at e)
          ]
        ]

  judge_accepts :
      (o : (Bool × Bool) ⊎ IgnoreReason)
      → (judge o payload p).1 ≡ accept heard s n
      → payload_to_physical payload ≡ some heard
  unfolding judge
  judge_accepts (inr reason) e = cc
  judge_accepts (inl (on, is_ack)) e = correlate_accepts on is_ack p.pending e

  -- What is accepted is the physical event of the payload's kind, for which the twin has an event.
  pub on_response_accepts :
      (on_response payload p).1 ≡ accept heard s n
      → (payload_to_physical payload ≡ some heard) × Projects heard
  unfolding on_response
  on_response_accepts e =
      let from_kind = judge_accepts (response_type payload.kind) e in
      (from_kind, response_Projects payload heard from_kind)
