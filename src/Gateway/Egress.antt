-- ===== src/Gateway/Egress.antt =====
-- Commands to the bus: the fan-out and the two publishers of `spawn_actuation_command_publishers`
-- in crates/gateway/src/gateway_runtime.rs. A publisher gives the frame that it hands to
-- `write_frame`, whose failure it only logs.
use sdv_simulation.Prelude.{Option, none, some}
use sdv_simulation.Prelude.Result.{Result, ok, err}
use sdv_simulation.Actuation.{
  ActuationCommand, switch_front_headlamp_on, switch_front_headlamp_off, start_wiper, stop_wiper,
}
use sdv_simulation.Bus.Policy.{FrontHeadlampPolicy, on_command_sent}
use sdv_simulation.Can.{CanBus, Fault}
use sdv_simulation.Can.Headlamp.{encode_command_frame}
use sdv_simulation.Can.Wiper.{encode_wiper_command_frame}

pub data Publisher : Type 0 where
  headlamp wiper : Publisher

unfoldable pub fan_out : ActuationCommand → Publisher
fan_out start_wiper = wiper
fan_out stop_wiper = wiper
fan_out (switch_front_headlamp_on _) = headlamp
fan_out (switch_front_headlamp_off _) = headlamp

module _ (bus : CanBus) where
  abbrev pub frame_of : Result Fault bus.Frame → Option bus.Frame
  frame_of (ok f) = some f
  frame_of (err _) = none

  -- The command is pending before its frame is written.
  unfoldable pub publish_headlamp :
      FrontHeadlampPolicy → ActuationCommand → FrontHeadlampPolicy × Option bus.Frame
  publish_headlamp policy command =
      (on_command_sent command policy, frame_of (encode_command_frame bus command))

  unfoldable pub publish_wiper : ActuationCommand → Option bus.Frame
  publish_wiper start_wiper = frame_of (encode_wiper_command_frame bus start_wiper)
  publish_wiper stop_wiper = frame_of (encode_wiper_command_frame bus stop_wiper)
  publish_wiper (switch_front_headlamp_on _) = none
  publish_wiper (switch_front_headlamp_off _) = none

  unfoldable pub published :
      Publisher → FrontHeadlampPolicy → ActuationCommand → FrontHeadlampPolicy × Option bus.Frame
  published headlamp policy command = publish_headlamp policy command
  published wiper policy command = (policy, publish_wiper command)

  -- What becomes of a command that the twin sends.
  unfoldable pub publish :
      FrontHeadlampPolicy → ActuationCommand → FrontHeadlampPolicy × Option bus.Frame
  publish policy command = published (fan_out command) policy command
