-- ===== src/Can/Wiper.antt =====
-- The wiper device: crates/vehicle_device_bus/src/devices/wiper/codec.rs and can.rs, and its
-- kinds of can/wire_kinds.rs.
use sdv_simulation.Prelude.{ℕ, Bool, List, [], ◌∷◌, Option, none, some, ◌==◌, if◌then◌else◌}
use sdv_simulation.Prelude.Result.{Result, err}
use sdv_simulation.Actuation.{
  ActuationCommand, switch_front_headlamp_on, switch_front_headlamp_off, start_wiper, stop_wiper,
}
use sdv_simulation.Can.{CanBus, Fault, invalid_input, build, raw_id}

abbrev pub id_wiper : ℕ
id_wiper = 0x205

abbrev pub kind_wiper_cmd_start : ℕ
kind_wiper_cmd_start = 0x11

abbrev pub kind_wiper_cmd_stop : ℕ
kind_wiper_cmd_stop = 0x12

pub record WiperCommandPayload : Type 0 where
  pub kind : ℕ

unfoldable pub encode_payload : WiperCommandPayload → List ℕ
encode_payload payload = payload.kind ∷ 0 ∷ 0 ∷ 0 ∷ 0 ∷ 0 ∷ 0 ∷ 0 ∷ []

unfoldable pub decode_payload : List ℕ → Option WiperCommandPayload
decode_payload [] = none
decode_payload (kind ∷ more) = some (record { kind = kind })

unfoldable pub kind_is_start : ℕ → Bool
kind_is_start kind = kind == kind_wiper_cmd_start

unfoldable pub kind_is_stop : ℕ → Bool
kind_is_stop kind = kind == kind_wiper_cmd_stop

unfoldable pub known_payload : Option ℕ → List ℕ → Option WiperCommandPayload
known_payload none bytes = none
known_payload (some n) bytes = if n == id_wiper then decode_payload bytes else none

module _ (bus : CanBus) where
  unfoldable pub build_frame : ℕ → Result Fault bus.Frame
  build_frame kind = build bus id_wiper (encode_payload (record { kind = kind }))

  unfoldable pub encode_wiper_command_frame : ActuationCommand → Result Fault bus.Frame
  encode_wiper_command_frame start_wiper = build_frame kind_wiper_cmd_start
  encode_wiper_command_frame stop_wiper = build_frame kind_wiper_cmd_stop
  encode_wiper_command_frame (switch_front_headlamp_on _) = err invalid_input
  encode_wiper_command_frame (switch_front_headlamp_off _) = err invalid_input

  unfoldable pub decode_payload_from_can_frame : bus.Frame → Option WiperCommandPayload
  decode_payload_from_can_frame f = known_payload (raw_id bus f) (bus.data_bytes f)
