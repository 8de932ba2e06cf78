-- ===== src/Can/Headlamp.antt =====
-- The headlamp device's frames:
-- crates/vehicle_device_bus/src/devices/front_headlamp/can.rs.
use sdv_simulation.Prelude.{
  ℕ, ◌<◌, ◌≡◌, ap, ◌∙◌, Bool, true, false, arith, List, [], ◌∷◌, Option, none, some, ◌==◌,
  if◌then◌else◌,
}
use sdv_simulation.Prelude.Word.{as_u16, as_u32}
use sdv_simulation.Prelude.Result.{Result, ok, err}
use sdv_simulation.Twin.Identity.{Text}
use sdv_simulation.Actuation.{
  CorrelationId, ActuationCommand, switch_front_headlamp_on, switch_front_headlamp_off, start_wiper,
  stop_wiper,
}
use sdv_simulation.Bus.{
  FrontHeadlampActuationPayload, kind_cmd_on, kind_cmd_off, kind_ack_on, kind_ack_off, kind_nack_on,
  kind_nack_off, encode_payload, decode_payload,
}
use sdv_simulation.Bus.Wire.{Fits, command_of, decode_payload-encode_payload}
use sdv_simulation.Can.{
  IsLawful, build_fits, CanBus, Fault, invalid_input, wiper_panic, build, raw_id,
}

abbrev pub id_front_headlamp : ℕ
id_front_headlamp = 0x204

-- "front-headlamp-actuator"
abbrev pub cmd_payload_source_id : Text
cmd_payload_source_id =
    102 ∷ 114 ∷ 111 ∷ 110 ∷ 116 ∷ 45 ∷ 104 ∷ 101 ∷ 97 ∷ 100 ∷ 108 ∷ 97 ∷ 109 ∷ 112 ∷ 45 ∷ 97 ∷ 99
    ∷ 116 ∷ 117 ∷ 97 ∷ 116 ∷ 111 ∷ 114 ∷ []

-- The session and the sequence number as the wire has them; on a wiper command the code panics.
abbrev wire_meta_of : CorrelationId → Result Fault (ℕ × ℕ)
wire_meta_of id = ok (as_u16 id.session_id, as_u32 id.sequence_no)

unfoldable pub actuation_command_wire_meta : ActuationCommand → Result Fault (ℕ × ℕ)
actuation_command_wire_meta (switch_front_headlamp_on id) = wire_meta_of id
actuation_command_wire_meta (switch_front_headlamp_off id) = wire_meta_of id
actuation_command_wire_meta start_wiper = err wiper_panic
actuation_command_wire_meta stop_wiper = err wiper_panic

abbrev pub payload_of : ℕ → ℕ × ℕ → FrontHeadlampActuationPayload
payload_of kind (session, sequence) = record {
  kind = kind;
  session_id = session;
  sequence_no = sequence;
}

abbrev pub received : FrontHeadlampActuationPayload → CorrelationId
received payload = record {
  source_id = cmd_payload_source_id;
  session_id = payload.session_id;
  sequence_no = payload.sequence_no;
}

unfoldable pub actuation_command_from_cmd_payload :
    FrontHeadlampActuationPayload → Option ActuationCommand
actuation_command_from_cmd_payload payload =
    if payload.kind == kind_cmd_on
    then some (switch_front_headlamp_on (received payload))
    else if payload.kind == kind_cmd_off
    then some (switch_front_headlamp_off (received payload))
    else none

wire_Fits :
    (kind : ℕ) (id : CorrelationId)
    → kind < 256
    → Fits (payload_of kind (as_u16 id.session_id, as_u32 id.sequence_no))
wire_Fits kind id small = record {
  kind_small = small;
  session_small = omega arith;
  sequence_small = omega arith;
}

-- The payload of a frame whose identifier is the headlamp's.
unfoldable pub known_payload : Option ℕ → List ℕ → Option FrontHeadlampActuationPayload
known_payload none bytes = none
known_payload (some n) bytes = if n == id_front_headlamp then decode_payload bytes else none

module _ (bus : CanBus) where
  abbrev build_with : ℕ → Result Fault (ℕ × ℕ) → Result Fault bus.Frame
  build_with kind (err fault) = err fault
  build_with kind (ok meta) = build bus id_front_headlamp (encode_payload (payload_of kind meta))

  unfoldable pub build_frame : ℕ → ActuationCommand → Result Fault bus.Frame
  build_frame kind command = build_with kind (actuation_command_wire_meta command)

  unfoldable pub encode_command_frame : ActuationCommand → Result Fault bus.Frame
  encode_command_frame (switch_front_headlamp_on id) =
      build_frame kind_cmd_on (switch_front_headlamp_on id)
  encode_command_frame (switch_front_headlamp_off id) =
      build_frame kind_cmd_off (switch_front_headlamp_off id)
  encode_command_frame start_wiper = err invalid_input
  encode_command_frame stop_wiper = err invalid_input

  unfoldable pub encode_ack_frame : ActuationCommand → Result Fault bus.Frame
  encode_ack_frame (switch_front_headlamp_on id) =
      build_frame kind_ack_on (switch_front_headlamp_on id)
  encode_ack_frame (switch_front_headlamp_off id) =
      build_frame kind_ack_off (switch_front_headlamp_off id)
  encode_ack_frame start_wiper = err invalid_input
  encode_ack_frame stop_wiper = err invalid_input

  unfoldable pub encode_nack_frame : ActuationCommand → Result Fault bus.Frame
  encode_nack_frame (switch_front_headlamp_on id) =
      build_frame kind_nack_on (switch_front_headlamp_on id)
  encode_nack_frame (switch_front_headlamp_off id) =
      build_frame kind_nack_off (switch_front_headlamp_off id)
  encode_nack_frame start_wiper = err invalid_input
  encode_nack_frame stop_wiper = err invalid_input

  unfoldable pub decode_payload_from_can_frame : bus.Frame → Option FrontHeadlampActuationPayload
  decode_payload_from_can_frame f = known_payload (raw_id bus f) (bus.data_bytes f)

  -- A headlamp frame that holds the payload.
  abbrev pub Carries : bus.Frame → FrontHeadlampActuationPayload → Type 0
  Carries f p = (raw_id bus f ≡ some id_front_headlamp) × (decode_payload_from_can_frame f ≡ some p)

  decode_payload_reads :
      (f : bus.Frame) (bytes : List ℕ)
      → raw_id bus f ≡ some id_front_headlamp
      → bus.data_bytes f ≡ bytes
      → decode_payload_from_can_frame f ≡ decode_payload bytes
  unfolding decode_payload_from_can_frame known_payload
  decode_payload_reads f bytes named held =
      ap (λ o. known_payload o (bus.data_bytes f)) named ∙ ap decode_payload held

  module _ (lawful : IsLawful bus) where
    payload_builds :
        (p : FrontHeadlampActuationPayload)
        → Fits p
        → (f : bus.Frame) × (build bus id_front_headlamp (encode_payload p) ≡ ok f) × Carries f p
    payload_builds p fits =
        let (back, eight) = decode_payload-encode_payload p fits in
        let (f, built, named, held) =
          build_fits bus lawful id_front_headlamp (encode_payload p) (omega arith)
            (omega (arith, eight)) in
        (f, built, (named, decode_payload_reads f _ named held ∙ back))

    -- A frame of any byte-wide kind is built for a headlamp command, and read back as that kind
    -- with the low bits of the command's session and sequence number.
    pub build_frame_reads :
        (kind : ℕ) (on_command : Bool) (id : CorrelationId)
        → kind < 256
        → (f : bus.Frame) × (build_frame kind (command_of on_command id) ≡ ok f)
          × Carries f (payload_of kind (as_u16 id.session_id, as_u32 id.sequence_no))
    unfolding build_frame actuation_command_wire_meta
    build_frame_reads kind true id small =
        payload_builds (payload_of kind (as_u16 id.session_id, as_u32 id.sequence_no))
          (wire_Fits kind id small)
    build_frame_reads kind false id small =
        payload_builds (payload_of kind (as_u16 id.session_id, as_u32 id.sequence_no))
          (wire_Fits kind id small)
