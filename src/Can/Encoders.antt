-- ===== src/Can/Encoders.antt =====
-- Which device encodes which command: `encode_command_frame`, `encode_ack_frame` and
-- `encode_nack_frame` of front_headlamp/can.rs and `encode_wiper_command_frame` of wiper/can.rs.
use sdv_simulation.Prelude.{◌≡◌, refl, Bool, true, false, not, arith}
use sdv_simulation.Prelude.Result.{Result, ok, err}
use sdv_simulation.Bus.{
  kind_cmd_on, kind_cmd_off, kind_ack_on, kind_ack_off, kind_nack_on, kind_nack_off,
}
use sdv_simulation.Actuation.{
  ActuationCommand, switch_front_headlamp_on, switch_front_headlamp_off, start_wiper, stop_wiper,
}
use sdv_simulation.Can.{CanBus, IsLawful, Fault, invalid_input, build_fits}
use sdv_simulation.Can.Headlamp.{
  build_frame_reads, encode_command_frame, encode_ack_frame, encode_nack_frame,
}
use sdv_simulation.Can.Wiper.{encode_wiper_command_frame, id_wiper}
use sdv_simulation.Can.Wiper

-- What an encoder of one device gives on a command: a frame on its own, and the error of an
-- invalid input, never the panic, on the other's.
abbrev pub Encodes {ℓ} : {F : Type ℓ} → Bool → Result Fault F → Type ℓ
Encodes {F = F} true r = (f : F) × (r ≡ ok f)
Encodes {F = F} false r = r ≡ err invalid_input

abbrev pub is_headlamp_command : ActuationCommand → Bool
is_headlamp_command (switch_front_headlamp_on _) = true
is_headlamp_command (switch_front_headlamp_off _) = true
is_headlamp_command start_wiper = false
is_headlamp_command stop_wiper = false

module _ (bus : CanBus) (lawful : IsLawful bus) where
  -- Each command is encoded by exactly one of the two devices.
  pub one_device-Encodes :
      (command : ActuationCommand)
      → Encodes (is_headlamp_command command) (encode_command_frame bus command)
        × Encodes (is_headlamp_command command) (encode_ack_frame bus command)
        × Encodes (is_headlamp_command command) (encode_nack_frame bus command)
        × Encodes (not (is_headlamp_command command)) (encode_wiper_command_frame bus command)
  unfolding encode_command_frame encode_ack_frame encode_nack_frame encode_wiper_command_frame
      Wiper.build_frame Wiper.encode_payload
  one_device-Encodes (switch_front_headlamp_on id) =
      let (f, made, _) = build_frame_reads bus lawful kind_cmd_on true id (omega arith) in
      let (g, acked, _) = build_frame_reads bus lawful kind_ack_on true id (omega arith) in
      let (h, nacked, _) = build_frame_reads bus lawful kind_nack_on true id (omega arith) in
      ((f, made), (g, acked), (h, nacked), refl)
  one_device-Encodes (switch_front_headlamp_off id) =
      let (f, made, _) = build_frame_reads bus lawful kind_cmd_off false id (omega arith) in
      let (g, acked, _) = build_frame_reads bus lawful kind_ack_off false id (omega arith) in
      let (h, nacked, _) = build_frame_reads bus lawful kind_nack_off false id (omega arith) in
      ((f, made), (g, acked), (h, nacked), refl)
  one_device-Encodes start_wiper =
      let (f, made, _, _) = build_fits bus lawful id_wiper _ (omega arith) (omega arith) in
      (refl, refl, refl, (f, made))
  one_device-Encodes stop_wiper =
      let (f, made, _, _) = build_fits bus lawful id_wiper _ (omega arith) (omega arith) in
      (refl, refl, refl, (f, made))
