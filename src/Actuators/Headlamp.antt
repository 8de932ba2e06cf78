-- ===== src/Actuators/Headlamp.antt =====
-- The headlamp actuator's loop: `main` of crates/front_headlamp_actuator/src/main.rs. A round is
-- given what `read_frame` gave, the two numbers it may draw, and whether `write_frame` succeeds;
-- it gives the log queue and the frame that it wrote, if any.
use sdv_simulation.Prelude.{Bool, true, false, Option, none, some, if◌then◌else◌}
use sdv_simulation.Prelude.Result.{Result, ok, err}
use sdv_simulation.Actuation.{
  ActuationCommand, switch_front_headlamp_on, switch_front_headlamp_off, start_wiper, stop_wiper,
}
use sdv_simulation.Bus.{FrontHeadlampActuationPayload}
use sdv_simulation.Can.{CanBus, Fault}
use sdv_simulation.Can.Headlamp.{
  decode_payload_from_can_frame, actuation_command_from_cmd_payload, encode_ack_frame,
  encode_nack_frame,
}
use sdv_simulation.Actuators.{Floats, should_respond, should_send_ack_response}
use sdv_simulation.Actuators.LogQueue.{LogQueue, log_line}

module _ (bus : CanBus) where
  abbrev pub response : Bool → ActuationCommand → Result Fault bus.Frame
  response true command = encode_ack_frame bus command
  response false command = encode_nack_frame bus command

module _ (bus : CanBus) (floats : Floats) where
  pub record Draws : Type 0 where
    pub dont_respond_prob : floats.Float
    pub ack_nack_response_prob : floats.Float
    -- the random number of each draw
    pub respond_draw : floats.Float
    pub ack_draw : floats.Float
    pub write_succeeds : Bool

  abbrev Round : Type 0
  Round = LogQueue × Option bus.Frame

  -- A frame that `write_frame` fails on is given all the same: what of it reached the bus is the
  -- bus's.
  abbrev pub send : Bool → Result Fault bus.Frame → LogQueue → Round
  send write_succeeds (ok f) q = if write_succeeds then (q, some f) else (log_line q, some f)
  send write_succeeds (err fault) q = (log_line q, none)

  -- After the line "received", the delay of 150 ms, and the choice.
  abbrev pub obey : Draws → ActuationCommand → LogQueue → Round
  obey d command q =
      let delayed = log_line q in
      if should_respond floats d.dont_respond_prob d.respond_draw
      then send d.write_succeeds
          (response bus (should_send_ack_response floats d.ack_nack_response_prob d.ack_draw)
            command)
          (log_line delayed)
      else (log_line delayed, none)

  abbrev pub on_command : Draws → Option ActuationCommand → LogQueue → Round
  on_command d none q = (q, none)
  on_command d (some (switch_front_headlamp_on id)) q = obey d (switch_front_headlamp_on id) q
  on_command d (some (switch_front_headlamp_off id)) q = obey d (switch_front_headlamp_off id) q
  on_command d (some start_wiper) q = (q, none)
  on_command d (some stop_wiper) q = (q, none)

  abbrev pub on_payload : Draws → Option FrontHeadlampActuationPayload → LogQueue → Round
  on_payload d none q = (q, none)
  on_payload d (some payload) q = on_command d (actuation_command_from_cmd_payload payload) q

  -- One round of the loop; `none` stands for a failed `read_frame`.
  unfoldable pub round : Draws → Option bus.Frame → LogQueue → Round
  round d none q = (log_line q, none)
  round d (some f) q = on_payload d (decode_payload_from_can_frame bus f) q
