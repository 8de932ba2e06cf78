-- ===== src/Controller.antt =====
-- The twin's front door:
-- crates/common/src/twin_runtime/controller/vehicle_controller.rs. The actor's reference is
-- ractor's: `ActorRef` is what the code calls of it.
use sdv_simulation.Prelude.{Option, none, some}
use sdv_simulation.Prelude.Result.{Result, ok, err}
use sdv_simulation.Fsm.Machineries.{FsmEvent}
use sdv_simulation.Twin.{DigitalTwinCarVocabulary, CarSnapshot}
use sdv_simulation.Ingress.{PhysicalCarVocabulary, ProjectionError, project}

pub data CallResult : Type 0 where
  success : CarSnapshot → CallResult
  timeout sender_error : CallResult

pub record ActorRef : Type 1 where
  -- the mailbox, as the sender sees it
  pub Mailbox : Type 0
  -- `send_message`: the mailbox that holds the message, or `MessagingErr`
  pub send_message : DigitalTwinCarVocabulary → Mailbox → Option Mailbox
  -- `call` with a reply port: `none` is `MessagingErr`
  pub call : DigitalTwinCarVocabulary → Mailbox → Option CallResult

pub data VehicleControllerError : Type 0 where
  projection : ProjectionError → VehicleControllerError
  messaging timed_out reply_dropped : VehicleControllerError

module _ (actor : ActorRef) where
  abbrev delivered : Option actor.Mailbox → Result VehicleControllerError actor.Mailbox
  delivered none = err messaging
  delivered (some mailbox) = ok mailbox

  -- `send_power_on`, `send_power_off` and `submit_fsm_event` send one event each.
  unfoldable pub submit_fsm_event :
      FsmEvent → actor.Mailbox → Result VehicleControllerError actor.Mailbox
  submit_fsm_event event mailbox =
      delivered (actor.send_message (DigitalTwinCarVocabulary.fsm event) mailbox)

  unfoldable pub send_power_on : actor.Mailbox → Result VehicleControllerError actor.Mailbox
  send_power_on mailbox =
      delivered (actor.send_message (DigitalTwinCarVocabulary.fsm FsmEvent.power_on) mailbox)

  unfoldable pub send_power_off : actor.Mailbox → Result VehicleControllerError actor.Mailbox
  send_power_off mailbox =
      delivered (actor.send_message (DigitalTwinCarVocabulary.fsm FsmEvent.power_off) mailbox)

  abbrev pub sent_on :
      Result ProjectionError DigitalTwinCarVocabulary
      → actor.Mailbox
      → Result VehicleControllerError actor.Mailbox
  sent_on (err e) mailbox = err (projection e)
  sent_on (ok message) mailbox = delivered (actor.send_message message mailbox)

  unfoldable pub submit_physical_car_event :
      PhysicalCarVocabulary → actor.Mailbox → Result VehicleControllerError actor.Mailbox
  submit_physical_car_event event mailbox = sent_on (project event) mailbox

  abbrev replied : Option CallResult → Result VehicleControllerError CarSnapshot
  replied none = err messaging
  replied (some (CallResult.success snapshot)) = ok snapshot
  replied (some CallResult.timeout) = err timed_out
  replied (some CallResult.sender_error) = err reply_dropped

  unfoldable pub get_snapshot : actor.Mailbox → Result VehicleControllerError CarSnapshot
  get_snapshot mailbox = replied (actor.call DigitalTwinCarVocabulary.get_status mailbox)
