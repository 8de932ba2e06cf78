-- ===== src/Bus/Wire.antt =====
-- The headlamp command's way over the bus and back: codec.rs, can.rs and policy.rs of
-- crates/vehicle_device_bus/src/devices/front_headlamp.
use sdv_simulation.Prelude.{
  ℕ, ◌+◌, ◌*◌, ◌/◌, ◌<◌, ◌%◌, Bool, true, false, some, ◌≡◌, ◌≢◌, ◌⊎◌, inl, inr, refl, sym, ◌∙◌, ap,
  arith, length,
}
use sdv_simulation.Prelude.Word.{as_u16, as_u32}
use sdv_simulation.Logs.{FrontHeadlampSwitchDirection, FrontHeadlampIncompleteCause}
use sdv_simulation.Fsm.Machineries.{FsmEvent}
use sdv_simulation.Ingress.{PhysicalCarVocabulary, project, fsm}
use sdv_simulation.Actuation.{
  CorrelationId, ActuationCommand, switch_front_headlamp_on, switch_front_headlamp_off,
}
use sdv_simulation.Bus.{
  FrontHeadlampActuationPayload, kind_ack_on, kind_ack_off, kind_nack_on, kind_nack_off,
  payload_to_physical, encode_payload, decode_payload,
}
use sdv_simulation.Bus.Policy.{
  FrontHeadlampPolicy, PendingFrontHeadlampCommand, accept, ignore, no_pending_command,
  correlation_mismatch, on_command_sent, on_response, correlate, judge, response_type, IgnoreReason,
}

-- The fields fit the wire: a byte, 16 bits and 32 bits.
pub record Fits (p : FrontHeadlampActuationPayload) : Type 0 where
  pub kind_small : p.kind < 256
  pub session_small : p.session_id < 65536
  pub sequence_small : p.sequence_no < 4294967296

session_back : (n : ℕ) → n < 65536 → n / 256 * 256 + n % 256 ≡ n
session_back n h = omega arith

sequence_back :
    (n : ℕ)
    → n < 4294967296
    → n / 16777216 * 16777216 + n / 65536 % 256 * 65536 + n / 256 % 256 * 256 + n % 256 ≡ n
sequence_back n h = omega arith

-- A payload whose fields fit the wire is decoded from its eight bytes as it was.
pub decode_payload-encode_payload :
    (p : FrontHeadlampActuationPayload)
    → Fits p
    → (decode_payload (encode_payload p) ≡ some p) × (length (encode_payload p) ≡ 8)
unfolding decode_payload encode_payload
decode_payload-encode_payload p f =
    let session = session_back p.session_id f.session_small in
    let sequence = sequence_back p.sequence_no f.sequence_small in
    (λ i. some (record { kind = p.kind; session_id = session i; sequence_no = sequence i }), refl)

-- The command, and the kind of a response to it: the direction, then whether it is an ACK.
abbrev pub command_of : Bool → CorrelationId → ActuationCommand
command_of true id = switch_front_headlamp_on id
command_of false id = switch_front_headlamp_off id

abbrev pub response_kind : Bool → Bool → ℕ
response_kind true true = kind_ack_on
response_kind false true = kind_ack_off
response_kind true false = kind_nack_on
response_kind false false = kind_nack_off

abbrev pub response_to : Bool → Bool → CorrelationId → FrontHeadlampActuationPayload
response_to on_command is_ack id = record {
  kind = response_kind on_command is_ack;
  session_id = as_u16 id.session_id;
  sequence_no = as_u32 id.sequence_no;
}

abbrev pub heard_as : Bool → Bool → PhysicalCarVocabulary
heard_as on_command true = PhysicalCarVocabulary.front_headlamp_command_confirmed on_command
heard_as on_command false = PhysicalCarVocabulary.front_headlamp_command_rejected on_command

abbrev pub response_event : Bool → Bool → FsmEvent
response_event true true = FsmEvent.front_headlamp_on_ack
response_event false true = FsmEvent.front_headlamp_off_ack
response_event true false =
    FsmEvent.front_headlamp_actuation_incomplete FrontHeadlampSwitchDirection.on
      FrontHeadlampIncompleteCause.negative_ack
response_event false false =
    FsmEvent.front_headlamp_actuation_incomplete FrontHeadlampSwitchDirection.off
      FrontHeadlampIncompleteCause.negative_ack

module _ (id : CorrelationId) (p : FrontHeadlampPolicy) where
  -- The response to the command just sent, ACK or NACK, is accepted whatever was pending before,
  -- and a second copy of it is ignored; what is accepted becomes the event of that direction.
  pub own_response_accepted :
      (on_command is_ack : Bool)
      → let r = response_to on_command is_ack id in
        let heard = on_response r (on_command_sent (command_of on_command id) p) in
        (heard.1 ≡ accept (heard_as on_command is_ack) r.session_id r.sequence_no)
        × ((on_response r heard.0).1 ≡ ignore no_pending_command)
        × (project (heard_as on_command is_ack) ≡ fsm (response_event on_command is_ack))
  unfolding on_response on_command_sent judge correlate payload_to_physical project
  own_response_accepted true true = ground arith
  own_response_accepted true false = ground arith
  own_response_accepted false true = ground arith
  own_response_accepted false false = ground arith

correlate-foreign :
    (p : FrontHeadlampPolicy) (q : PendingFrontHeadlampCommand) (r : FrontHeadlampActuationPayload)
    (on_command is_ack : Bool)
    → (q.session ≢ r.session_id) ⊎ (q.sequence ≢ r.sequence_no)
    → correlate p on_command is_ack r (some q) ≡ (p, ignore correlation_mismatch)
unfolding correlate
correlate-foreign p q r on_command is_ack (inl h) = ground arith
correlate-foreign p q r on_command is_ack (inr h) = ground arith

judge-foreign :
    (o : (Bool × Bool) ⊎ IgnoreReason) (p : FrontHeadlampPolicy) (q : PendingFrontHeadlampCommand)
    (r : FrontHeadlampActuationPayload)
    → p.pending ≡ some q
    → (q.session ≢ r.session_id) ⊎ (q.sequence ≢ r.sequence_no)
    → ((judge o r p).0 ≡ p)
      × ((heard : PhysicalCarVocabulary) (s n : ℕ) → (judge o r p).1 ≢ accept heard s n)
unfolding judge
judge-foreign (inr reason) p q r was foreign = (refl, λ heard s n h. cc)
judge-foreign (inl (d, a)) p q r was foreign =
    let other = ap (correlate p d a r) was ∙ correlate-foreign p q r d a foreign in
    (ap (λ x. x.0) other, λ heard s n h. let ignored = (sym (ap (λ x. x.1) other) ∙ h) in cc)

-- A response that carries another session or sequence number than the pending command is never
-- accepted, whatever its kind, and the command stays pending.
pub foreign_response_ignored :
    (p : FrontHeadlampPolicy) (q : PendingFrontHeadlampCommand) (r : FrontHeadlampActuationPayload)
    → p.pending ≡ some q
    → (q.session ≢ r.session_id) ⊎ (q.sequence ≢ r.sequence_no)
    → ((on_response r p).0 ≡ p)
      × ((heard : PhysicalCarVocabulary) (s n : ℕ) → (on_response r p).1 ≢ accept heard s n)
unfolding on_response
foreign_response_ignored p q r was foreign = judge-foreign (response_type r.kind) p q r was foreign
