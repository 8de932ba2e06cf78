-- ===== src/Actuators/Wiper.antt =====
-- The wiper actuator's loop: `main` of crates/wiper_actuator/src/main.rs. A round gives the log
-- queue, and the state that it logs the motor to be in, if it logs one. It writes no frame.
use sdv_simulation.Prelude.{Bool, true, false, Option, none, some, ◌==◌, if◌then◌else◌}
use sdv_simulation.Can.{CanBus}
use sdv_simulation.Can.Wiper.{
  WiperCommandPayload, kind_wiper_cmd_start, kind_wiper_cmd_stop, decode_payload_from_can_frame,
}
use sdv_simulation.Actuators.{Floats, should_respond}
use sdv_simulation.Actuators.LogQueue.{LogQueue, log_line}

unfoldable pub motor_state : WiperCommandPayload → Option Bool
motor_state payload =
    if payload.kind == kind_wiper_cmd_start
    then some true
    else if payload.kind == kind_wiper_cmd_stop
    then some false
    else none

module _ (bus : CanBus) (floats : Floats) where
  abbrev on_motor_state : Bool → Option Bool → LogQueue → LogQueue × Option Bool
  on_motor_state responds none q = (q, none)
  on_motor_state responds (some on) q =
      if responds then (log_line q, some on) else (log_line q, none)

  abbrev on_payload : Bool → Option WiperCommandPayload → LogQueue → LogQueue × Option Bool
  on_payload responds none q = (q, none)
  on_payload responds (some payload) q = on_motor_state responds (motor_state payload) q

  -- One round of the loop, with the probability and the number drawn.
  unfoldable pub round :
      floats.Float → floats.Float → Option bus.Frame → LogQueue → LogQueue × Option Bool
  round p drawn none q = (log_line q, none)
  round p drawn (some f) q =
      on_payload (should_respond floats p drawn) (decode_payload_from_can_frame bus f) q
