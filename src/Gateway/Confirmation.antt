-- ===== src/Gateway/Confirmation.antt =====
-- A headlamp command's way through the system: published by the gateway
-- (crates/gateway/src/gateway_runtime.rs), obeyed by the actuator
-- (crates/front_headlamp_actuator/src/main.rs), heard by the gateway's reader.
use sdv_simulation.Prelude.{ℕ, ◌≡◌, ◌∙◌, refl, ap, Bool, true, false, none, some, inl}
use sdv_simulation.Prelude.Word.{as_u16, as_u32}
use sdv_simulation.Prelude.Result.{ok}
use sdv_simulation.Ingress.{project, fsm}
use sdv_simulation.Actuation.{CorrelationId}
use sdv_simulation.Bus.{FrontHeadlampActuationPayload}
use sdv_simulation.Bus.Policy.{
  FrontHeadlampPolicy, FrontHeadlampPolicyDecision, accept, ignore, IgnoreReason, on_command_sent,
  on_response, judge, no_pending_command,
}
use sdv_simulation.Bus.Wire.{
  command_of, response_to, heard_as, response_event, own_response_accepted,
}
use sdv_simulation.Can.{CanBus, IsLawful}
use sdv_simulation.Can.Signals.{from_can_frame, from_can_frame_reads}
use sdv_simulation.Can.Traffic.{signal_of_foreign}
use sdv_simulation.Can.Headlamp.{Carries, encode_command_frame}
use sdv_simulation.Actuators.{Floats, should_respond, should_send_ack_response}
use sdv_simulation.Actuators.LogQueue.{LogQueue}
use sdv_simulation.Actuators.Headlamp.{Draws, round}
use sdv_simulation.Actuators.Answer.{command_payload, command_frame, command_answered}
use sdv_simulation.Gateway.{actuation_response, hear, hear_decision, hear_payload, read_frame}
use sdv_simulation.Gateway.Egress.{publish, published, publish_headlamp, fan_out, frame_of}

-- What the reader makes of a decision.
hear_accepted :
    (r : FrontHeadlampPolicy × FrontHeadlampPolicyDecision) (heard : _) (s n : ℕ)
    → r.1 ≡ accept heard s n
    → hear_decision r ≡ (r.0, some (actuation_response heard s n))
hear_accepted r heard s n e = ap (λ x. hear_decision (r.0, x)) e

hear_ignored :
    (r : FrontHeadlampPolicy × FrontHeadlampPolicyDecision) (why : IgnoreReason)
    → r.1 ≡ ignore why
    → hear_decision r ≡ (r.0, none)
hear_ignored r why e = ap (λ x. hear_decision (r.0, x)) e

-- The gateway reads its own command frame, which the bus echoes, as nothing.
echo_ignored :
    (policy : FrontHeadlampPolicy) (on : Bool) (id : CorrelationId)
    → hear_payload policy (some (command_payload on id)) ≡ (policy, none)
unfolding hear_payload on_response judge
echo_ignored policy true id = refl
echo_ignored policy false id = refl

module _ (bus : CanBus) where
  pub read_headlamp :
      (policy : FrontHeadlampPolicy) (f : bus.Frame) (p : FrontHeadlampActuationPayload)
      → Carries bus f p
      → read_frame bus policy (some f) ≡ hear_payload policy (some p)
  unfolding read_frame hear
  read_headlamp policy f p (named, held) =
      let unread : from_can_frame bus f ≡ none =
        from_can_frame_reads bus f 0x204 (bus.data_bytes f) named refl
        ∙ signal_of_foreign 0x204 (bus.data_bytes f) (inl refl) in
      rw (unread, held) refl

  pub published_command :
      (policy : FrontHeadlampPolicy) (on : Bool) (id : CorrelationId) (f : bus.Frame)
      → encode_command_frame bus (command_of on id) ≡ ok f
      → publish bus policy (command_of on id) ≡ (on_command_sent (command_of on id) policy, some f)
  unfolding publish published publish_headlamp fan_out
  published_command policy true id f e =
      ap (λ r. (on_command_sent (command_of true id) policy, frame_of bus r)) e
  published_command policy false id f e =
      ap (λ r. (on_command_sent (command_of false id) policy, frame_of bus r)) e

-- The response to the command that was just sent, read once and then once more.
own_heard :
    (policy : FrontHeadlampPolicy) (on is_ack : Bool) (id : CorrelationId)
    → let sent = on_command_sent (command_of on id) policy in
      let r = response_to on is_ack id in
      let heard = hear_payload sent (some r) in
      (heard.1 ≡ some (actuation_response (heard_as on is_ack) r.session_id r.sequence_no))
      × ((hear_payload heard.0 (some r)).1 ≡ none)
unfolding hear_payload
own_heard policy on is_ack id =
    let sent = on_command_sent (command_of on id) policy in
    let r = response_to on is_ack id in
    let (taken, again, _) = own_response_accepted id policy on is_ack in
    let first = hear_accepted (on_response r sent) _ _ _ taken in
    let second = hear_ignored (on_response r (on_response r sent).0) no_pending_command again in
    (ap (λ h. h.1) first, rw first (ap (λ h. h.1) second))

module _ (bus : CanBus) (lawful : IsLawful bus) (floats : Floats) (d : Draws bus floats) where
  -- Published, a headlamp command of any session and number reaches the actuator; if that one
  -- responds, the gateway's reader takes its frame for the ACK or NACK of that command, the twin's
  -- event of that direction, whatever was pending before. A second copy of the response, and the
  -- echo of the command itself, are passed over.
  pub command_confirmed :
      (policy : FrontHeadlampPolicy) (q : LogQueue) (on : Bool) (id : CorrelationId)
      → should_respond floats d.dont_respond_prob d.respond_draw ≡ true
      → let sent = on_command_sent (command_of on id) policy in
        let is_ack = should_send_ack_response floats d.ack_nack_response_prob d.ack_draw in
        (f : bus.Frame) × (g : bus.Frame) × (publish bus policy (command_of on id) ≡ (sent, some f))
        × (read_frame bus sent (some f) ≡ (sent, none))
        × ((round bus floats d (some f) q).1 ≡ some g)
        × ((read_frame bus sent (some g)).1
            ≡ some (
                actuation_response
                  (heard_as on is_ack)
                  (as_u16 id.session_id)
                  (as_u32 id.sequence_no)))
        × ((read_frame bus (read_frame bus sent (some g)).0 (some g)).1 ≡ none)
        × (project (heard_as on is_ack) ≡ fsm (response_event on is_ack))
  command_confirmed policy q on id will =
      let sent = on_command_sent (command_of on id) policy in
      let is_ack = should_send_ack_response floats d.ack_nack_response_prob d.ack_draw in
      let (f, made, there) = command_frame bus lawful on id in
      let (g, answered, back) = command_answered bus lawful floats d f q on id will there in
      let (once, again) = own_heard policy on is_ack id in
      let read = λ (p : FrontHeadlampPolicy). read_headlamp bus p g _ back in
      (
        f,
        g,
        published_command bus policy on id f made,
        read_headlamp bus sent f _ there ∙ echo_ignored sent on id,
        answered,
        ap (λ h. h.1) (read sent) ∙ once,
        rw (read sent, read (hear_payload sent (some (response_to on is_ack id))).0) again,
        (own_response_accepted id policy on is_ack).2,
      )
