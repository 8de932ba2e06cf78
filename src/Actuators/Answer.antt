-- ===== src/Actuators/Answer.antt =====
-- What the headlamp actuator answers: the round of crates/front_headlamp_actuator/src/main.rs over
-- the frames of front_headlamp/can.rs.
use sdv_simulation.Prelude.{
  ℕ, ◌≡◌, ◌∙◌, refl, sym, ap, Bool, true, false, Option, none, some, arith, Bool-cases, is_some,
  Option-cases, inl, inr,
}
use sdv_simulation.Prelude.Word.{as_u16, as_u32}
use sdv_simulation.Prelude.Result.{Result, ok}
use sdv_simulation.Actuation.{
  CorrelationId, ActuationCommand, switch_front_headlamp_on, switch_front_headlamp_off, start_wiper,
  stop_wiper,
}
use sdv_simulation.Bus.{
  FrontHeadlampActuationPayload, kind_cmd_on, kind_cmd_off, kind_ack_on, kind_ack_off, kind_nack_on,
  kind_nack_off,
}
use sdv_simulation.Bus.Wire.{command_of, response_kind, response_to}
use sdv_simulation.Can.{Fault, CanBus, IsLawful}
use sdv_simulation.Can.Traffic.{one_reader}
use sdv_simulation.Can.Wiper
use sdv_simulation.Actuators.Wiper as WiperActuator
use sdv_simulation.Can.Headlamp.{
  decode_payload_from_can_frame, Carries, build_frame_reads, encode_command_frame, encode_ack_frame,
  encode_nack_frame, payload_of, received, actuation_command_from_cmd_payload,
}
use sdv_simulation.Actuators.{Floats, should_respond, should_send_ack_response}
use sdv_simulation.Actuators.LogQueue.{LogQueue, log_line}
use sdv_simulation.Actuators.Headlamp.{
  Draws, round, response, on_command, on_payload, obey, send, on_payload,
}

abbrev command_kind : Bool → ℕ
command_kind true = kind_cmd_on
command_kind false = kind_cmd_off

-- The payload of the frame that carries the command.
abbrev pub command_payload : Bool → CorrelationId → FrontHeadlampActuationPayload
command_payload on id = payload_of (command_kind on) (as_u16 id.session_id, as_u32 id.sequence_no)

-- A frame that the headlamp's decoder reads is none of the wiper's.
unread_by_wiper_actuator :
    (bus : CanBus) (g : bus.Frame)
    → is_some (decode_payload_from_can_frame bus g) ≡ true
    → Wiper.decode_payload_from_can_frame bus g ≡ none
unread_by_wiper_actuator bus g read =
    let (_, _, apart) = one_reader bus g in
    elim (Option-cases (Wiper.decode_payload_from_can_frame bus g)) [
      | inl e ↦ e
      | inr (x, e) ↦ let both = rw (read, e) at apart in cc
    ]

module _ (bus : CanBus) (lawful : IsLawful bus) where
  pub command_frame :
      (on : Bool) (id : CorrelationId)
      → (f : bus.Frame) × (encode_command_frame bus (command_of on id) ≡ ok f)
        × Carries bus f (command_payload on id)
  unfolding encode_command_frame
  command_frame true id = build_frame_reads bus lawful kind_cmd_on true id (omega arith)
  command_frame false id = build_frame_reads bus lawful kind_cmd_off false id (omega arith)

  response_frame :
      (on is_ack : Bool) (id : CorrelationId)
      → (f : bus.Frame) × (response bus is_ack (command_of on id) ≡ ok f)
        × Carries bus f (response_to on is_ack id)
  unfolding encode_ack_frame encode_nack_frame
  response_frame true true id = build_frame_reads bus lawful kind_ack_on true id (omega arith)
  response_frame false true id = build_frame_reads bus lawful kind_ack_off false id (omega arith)
  response_frame true false id = build_frame_reads bus lawful kind_nack_on true id (omega arith)
  response_frame false false id = build_frame_reads bus lawful kind_nack_off false id (omega arith)

  from_cmd_payload :
      (on : Bool) (id : CorrelationId)
      → actuation_command_from_cmd_payload (command_payload on id)
        ≡ some (command_of on (received (command_payload on id)))
  unfolding actuation_command_from_cmd_payload
  from_cmd_payload true id = refl
  from_cmd_payload false id = refl

  -- The session and sequence number are cut to the wire's width once.
  response_again :
      (on is_ack : Bool) (id : CorrelationId)
      → response_to on is_ack (received (command_payload on id)) ≡ response_to on is_ack id
  response_again on is_ack id =
      let session : as_u16 (as_u16 id.session_id) ≡ as_u16 id.session_id = omega arith in
      let sequence : as_u32 (as_u32 id.sequence_no) ≡ as_u32 id.sequence_no = omega arith in
      (λ i. record {
        kind = response_kind on is_ack;
        session_id = session i;
        sequence_no = sequence i;
      })

  module _ (floats : Floats) (d : Draws bus floats) where
    abbrev responds : Bool
    responds = should_respond floats d.dont_respond_prob d.respond_draw

    abbrev acks : Bool
    acks = should_send_ack_response floats d.ack_nack_response_prob d.ack_draw

    round_on_command :
        (f : bus.Frame) (q : LogQueue) (on : Bool) (id : CorrelationId)
        → decode_payload_from_can_frame bus f ≡ some (command_payload on id)
        → round bus floats d (some f) q
          ≡ obey bus floats d (command_of on (received (command_payload on id))) q
    unfolding round
    round_on_command f q true id e =
        ap (λ o. on_payload bus floats d o q) e
        ∙ ap (λ o. on_command bus floats d o q) (from_cmd_payload true id)
    round_on_command f q false id e =
        ap (λ o. on_payload bus floats d o q) e
        ∙ ap (λ o. on_command bus floats d o q) (from_cmd_payload false id)

    send_frame :
        (r : Result Fault bus.Frame) (q : LogQueue) (g : bus.Frame)
        → r ≡ ok g
        → (send bus floats d.write_succeeds r q).1 ≡ some g
    send_frame r q g made = elim (Bool-cases d.write_succeeds) [
      | inl e ↦ rw (made, e) refl
      | inr e ↦ rw (made, e) refl
    ]

    -- Chosen to respond, the actuator writes the frame that responds to the command, whatever its
    -- log queue holds.
    pub command_answered :
        (f : bus.Frame) (q : LogQueue) (on : Bool) (id : CorrelationId)
        → responds ≡ true
        → Carries bus f (command_payload on id)
        → (g : bus.Frame) × ((round bus floats d (some f) q).1 ≡ some g)
          × Carries bus g (response_to on acks id)
    command_answered f q on id will (named, held) =
        let (g, made, there) = response_frame on acks (received (command_payload on id)) in
        let answered : (obey bus floats d (command_of on (received (command_payload on id))) q).1
            ≡ some g =
          rw will (
            send_frame (response bus acks (command_of on (received (command_payload on id))))
              (log_line (log_line q)) g made) in
        (
          g,
          ap (λ r. r.1) (round_on_command f q on id held) ∙ answered,
          rw (sym (response_again on acks id)) there,
        )

    obey_carries :
        (q : LogQueue) (g : bus.Frame) (on : Bool) (id : CorrelationId)
        → (obey bus floats d (command_of on id) q).1 ≡ some g
        → Carries bus g (response_to on acks id)
    obey_carries q g on id e = elim (Bool-cases responds) [
      | inl will ↦
          let (h, made, there) = response_frame on acks id in
          let sent : (obey bus floats d (command_of on id) q).1 ≡ some h =
            rw will
              (send_frame (response bus acks (command_of on id)) (log_line (log_line q)) h made) in
          let same : h ≡ g = cc in rw same at there
      | inr wont ↦
          let quiet : (obey bus floats d (command_of on id) q).1 ≡ none = rw wont refl in cc
    ]

  module _ (floats : Floats) where
    response_ignored :
        (d : Draws bus floats) (g : bus.Frame) (q : LogQueue) (on is_ack : Bool)
        (id : CorrelationId)
        → Carries bus g (response_to on is_ack id)
        → round bus floats d (some g) q ≡ (q, none)
    unfolding round actuation_command_from_cmd_payload
    response_ignored d g q true true id (named, held) = rw held refl
    response_ignored d g q false true id (named, held) = rw held refl
    response_ignored d g q true false id (named, held) = rw held refl
    response_ignored d g q false false id (named, held) = rw held refl

    on_command_quiet :
        (d e : Draws bus floats) (o : Option ActuationCommand) (g : bus.Frame) (q r : LogQueue)
        → (on_command bus floats d o q).1 ≡ some g
        → (is_some (decode_payload_from_can_frame bus g) ≡ true)
          × (round bus floats e (some g) r ≡ (r, none))
    on_command_quiet d e none g q r h = cc
    on_command_quiet d e (some (switch_front_headlamp_on id)) g q r h =
        let there = obey_carries floats d q g true id h in
        (rw (there.1) refl, response_ignored e g r true _ id there)
    on_command_quiet d e (some (switch_front_headlamp_off id)) g q r h =
        let there = obey_carries floats d q g false id h in
        (rw (there.1) refl, response_ignored e g r false _ id there)
    on_command_quiet d e (some start_wiper) g q r h = cc
    on_command_quiet d e (some stop_wiper) g q r h = cc

    on_payload_quiet :
        (d e : Draws bus floats) (o : Option FrontHeadlampActuationPayload) (g : bus.Frame)
        (q r : LogQueue)
        → (on_payload bus floats d o q).1 ≡ some g
        → (is_some (decode_payload_from_can_frame bus g) ≡ true)
          × (round bus floats e (some g) r ≡ (r, none))
    on_payload_quiet d e none g q r h = cc
    on_payload_quiet d e (some p) g q r h =
        on_command_quiet d e (actuation_command_from_cmd_payload p) g q r h

    -- What the headlamp actuator writes, on whatever frame it read, starts nothing: read back from
    -- the shared bus, neither a headlamp actuator nor a wiper actuator answers it, moves a motor
    -- or logs a line, whatever they draw.
    pub response_starts_nothing :
        (d e : Draws bus floats) (p drawn : floats.Float) (f g : bus.Frame) (q r : LogQueue)
        → (round bus floats d (some f) q).1 ≡ some g
        → (round bus floats e (some g) r ≡ (r, none))
          × (WiperActuator.round bus floats p drawn (some g) r ≡ (r, none))
    unfolding round WiperActuator.round
    response_starts_nothing d e p drawn f g q r h =
        let (read_by_headlamp, quiet) =
          on_payload_quiet d e (decode_payload_from_can_frame bus f) g q r h in
        let foreign : Wiper.decode_payload_from_can_frame bus g ≡ none =
          unread_by_wiper_actuator bus g read_by_headlamp in
        (quiet, rw foreign refl)
