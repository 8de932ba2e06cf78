-- ===== src/Gateway/Motor.antt =====
-- A wiper command's way through the system: published by the gateway
-- (crates/gateway/src/gateway_runtime.rs) and obeyed by the wiper's actuator
-- (crates/wiper_actuator/src/main.rs), with no response.
use sdv_simulation.Prelude.{ℕ, ◌≡◌, ◌∙◌, refl, ap, Bool, true, false, none, some, inr, arith}
use sdv_simulation.Prelude.Result.{ok}
use sdv_simulation.Actuation.{ActuationCommand, start_wiper, stop_wiper}
use sdv_simulation.Bus.Policy.{FrontHeadlampPolicy}
use sdv_simulation.Can.{CanBus, IsLawful, raw_id, build_fits}
use sdv_simulation.Can.Signals.{from_can_frame, from_can_frame_reads}
use sdv_simulation.Can.Traffic.{signal_of_foreign}
use sdv_simulation.Can.Headlamp
use sdv_simulation.Can.Wiper
use sdv_simulation.Can.Wiper.{
  WiperCommandPayload, id_wiper, kind_wiper_cmd_start, kind_wiper_cmd_stop,
  encode_wiper_command_frame,
}
use sdv_simulation.Actuators.{Floats, should_respond}
use sdv_simulation.Actuators.LogQueue.{LogQueue}
use sdv_simulation.Actuators.Headlamp as HeadlampActuator
use sdv_simulation.Actuators.Wiper as WiperActuator
use sdv_simulation.Gateway.{read_frame, hear, hear_payload}
use sdv_simulation.Gateway.Egress.{publish, published, publish_wiper, fan_out, frame_of}

abbrev pub wiper_command : Bool → ActuationCommand
wiper_command true = start_wiper
wiper_command false = stop_wiper

abbrev motor_kind : Bool → ℕ
motor_kind true = kind_wiper_cmd_start
motor_kind false = kind_wiper_cmd_stop

module _ (bus : CanBus) (lawful : IsLawful bus) where
  wiper_frame :
      (on : Bool)
      → (f : bus.Frame) × (encode_wiper_command_frame bus (wiper_command on) ≡ ok f)
        × (raw_id bus f ≡ some id_wiper)
        × (bus.data_bytes f ≡ Wiper.encode_payload (record { kind = motor_kind on }))
  unfolding encode_wiper_command_frame Wiper.build_frame Wiper.encode_payload
  wiper_frame true = build_fits bus lawful id_wiper _ (omega arith) (omega arith)
  wiper_frame false = build_fits bus lawful id_wiper _ (omega arith) (omega arith)

  published_wiper :
      (policy : FrontHeadlampPolicy) (on : Bool) (f : bus.Frame)
      → encode_wiper_command_frame bus (wiper_command on) ≡ ok f
      → publish bus policy (wiper_command on) ≡ (policy, some f)
  unfolding publish published publish_wiper fan_out
  published_wiper policy true f e = ap (λ r. (policy, frame_of bus r)) e
  published_wiper policy false f e = ap (λ r. (policy, frame_of bus r)) e

  decode_wiper :
      (f : bus.Frame) (on : Bool)
      → raw_id bus f ≡ some id_wiper
      → bus.data_bytes f ≡ Wiper.encode_payload (record { kind = motor_kind on })
      → Wiper.decode_payload_from_can_frame bus f ≡ some (record { kind = motor_kind on })
  unfolding Wiper.decode_payload_from_can_frame Wiper.known_payload Wiper.decode_payload
      Wiper.encode_payload
  decode_wiper f on named held = rw (named, held) refl

  not_headlamp :
      (f : bus.Frame)
      → raw_id bus f ≡ some id_wiper
      → Headlamp.decode_payload_from_can_frame bus f ≡ none
  unfolding Headlamp.decode_payload_from_can_frame Headlamp.known_payload
  not_headlamp f named = rw named refl

  reader_passes_over :
      (policy : FrontHeadlampPolicy) (f : bus.Frame)
      → raw_id bus f ≡ some id_wiper
      → read_frame bus policy (some f) ≡ (policy, none)
  unfolding read_frame hear hear_payload
  reader_passes_over policy f named =
      let unread : from_can_frame bus f ≡ none =
        from_can_frame_reads bus f id_wiper (bus.data_bytes f) named refl
        ∙ signal_of_foreign id_wiper (bus.data_bytes f) (inr refl) in
      rw (unread, not_headlamp f named) refl

  module _ (floats : Floats) where
    headlamp_passes_over :
        (d : HeadlampActuator.Draws bus floats) (f : bus.Frame) (q : LogQueue)
        → raw_id bus f ≡ some id_wiper
        → HeadlampActuator.round bus floats d (some f) q ≡ (q, none)
    unfolding HeadlampActuator.round
    headlamp_passes_over d f q named = rw (not_headlamp f named) refl

    motor_turns :
        (p drawn : floats.Float) (f : bus.Frame) (q : LogQueue) (on : Bool)
        → should_respond floats p drawn ≡ true
        → Wiper.decode_payload_from_can_frame bus f ≡ some (record { kind = motor_kind on })
        → (WiperActuator.round bus floats p drawn (some f) q).1 ≡ some on
    unfolding WiperActuator.round WiperActuator.motor_state
    motor_turns p drawn f q true will held = rw (held, will) refl
    motor_turns p drawn f q false will held = rw (held, will) refl

    -- A published wiper command leaves the headlamp's policy alone and turns the motor at the
    -- wiper's actuator, when that one does not sit tight; the headlamp's actuator and the gateway's
    -- own reader pass its frame over.
    pub wiper_command_obeyed :
        (policy : FrontHeadlampPolicy) (d : HeadlampActuator.Draws bus floats) (q : LogQueue)
        (p drawn : floats.Float) (on : Bool)
        → should_respond floats p drawn ≡ true
        → (f : bus.Frame) × (publish bus policy (wiper_command on) ≡ (policy, some f))
          × ((WiperActuator.round bus floats p drawn (some f) q).1 ≡ some on)
          × (HeadlampActuator.round bus floats d (some f) q ≡ (q, none))
          × (read_frame bus policy (some f) ≡ (policy, none))
    wiper_command_obeyed policy d q p drawn on will =
        let (f, made, named, held) = wiper_frame on in
        (
          f,
          published_wiper policy on f made,
          motor_turns p drawn f q on will (decode_wiper f on named held),
          headlamp_passes_over d f q named,
          reader_passes_over policy f named,
        )
