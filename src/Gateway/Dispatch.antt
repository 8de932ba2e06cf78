-- ===== src/Gateway/Dispatch.antt =====
-- Into the twin: `run_can_ingress_dispatch_loop`, `format_front_headlamp_ingress` and the timer
-- loop of crates/gateway/src/gateway_runtime.rs.
use sdv_simulation.Prelude.{
  ℕ, true, false, Option, none, some, List, [], ◌∷◌, ◌++◌, length, ltb, if◌then◌else◌,
}
use sdv_simulation.Prelude.Result.{Result, ok, err}
use sdv_simulation.Ingress.{
  PhysicalCarVocabulary, VehicleEvent, vehicle_event_to_physical_vocabulary,
}
use sdv_simulation.Controller.{ActorRef, VehicleControllerError, submit_physical_car_event}
use sdv_simulation.Gateway.{CanIngressEnvelope, physical, actuation_response}

-- The icon and the message of an ingress line.
pub data IngressText : Type 0 where
  ack_on ack_off nack_on nack_off : IngressText

pub record IngressLine : Type 0 where
  pub session : ℕ
  pub sequence : ℕ
  pub text : IngressText

abbrev text_of : PhysicalCarVocabulary → Option IngressText
text_of (PhysicalCarVocabulary.front_headlamp_command_confirmed true) = some ack_on
text_of (PhysicalCarVocabulary.front_headlamp_command_confirmed false) = some ack_off
text_of (PhysicalCarVocabulary.front_headlamp_command_rejected true) = some nack_on
text_of (PhysicalCarVocabulary.front_headlamp_command_rejected false) = some nack_off
text_of _ = none

abbrev line_of : ℕ → ℕ → Option IngressText → Option IngressLine
line_of session sequence none = none
line_of session sequence (some text) =
    some (record { session = session; sequence = sequence; text = text })

unfoldable pub format_front_headlamp_ingress : ℕ → ℕ → PhysicalCarVocabulary → Option IngressLine
format_front_headlamp_ingress session sequence heard = line_of session sequence (text_of heard)

-- The bounded channel of the ingress log; there is none in the ledger-only mode.
pub record IngressLog : Type 0 where
  pub capacity : ℕ
  pub lines : List IngressLine

unfoldable pub try_log : Option IngressLine → Option IngressLog → Option IngressLog
try_log (some line) (some log) =
    if ltb (length log.lines) log.capacity
    then some (record log { lines = log.lines ++ (line ∷ []) })
    else some log
try_log none log = log
try_log (some line) none = none

module _ (actor : ActorRef) where
  -- The twin's mailbox and the log.
  pub record Sinks : Type 0 where
    pub mailbox : actor.Mailbox
    pub log : Option IngressLog

  abbrev pub logged_after :
      Option IngressLine
      → Option IngressLog
      → Result VehicleControllerError actor.Mailbox
      → Result VehicleControllerError Sinks
  logged_after line log (err e) = err e
  logged_after line log (ok mailbox) = ok (record { mailbox = mailbox; log = try_log line log })

  -- A round: the twin first, then the log.
  unfoldable pub dispatch : CanIngressEnvelope → Sinks → Result VehicleControllerError Sinks
  dispatch (physical heard) sinks =
      logged_after none sinks.log (submit_physical_car_event actor heard sinks.mailbox)
  dispatch (actuation_response heard session sequence) sinks =
      logged_after (format_front_headlamp_ingress session sequence heard) sinks.log
        (submit_physical_car_event actor heard sinks.mailbox)

  -- Why the loop ended; the sinks are those that it left.
  pub data Ended : Type 0 where
    submit_failed : VehicleControllerError → Ended
    channel_closed : Ended

  -- The loop over the envelopes that arrive before the reader exits.
  unfoldable pub run_dispatch_loop : List CanIngressEnvelope → Sinks → Ended × Sinks
  run_dispatch_loop [] sinks = (channel_closed, sinks)
  run_dispatch_loop (e ∷ es) sinks = elim (dispatch e sinks) [
    | err e ↦ (submit_failed e, sinks)
    | ok next ↦ run_dispatch_loop es next
  ]

  abbrev kept : actor.Mailbox → Result VehicleControllerError actor.Mailbox → actor.Mailbox
  kept mailbox (err e) = mailbox
  kept mailbox (ok next) = next

  -- A round of the timer loop, every 100 ms; its error is dropped.
  unfoldable pub timer_tick : actor.Mailbox → actor.Mailbox
  timer_tick mailbox = kept mailbox (
      submit_physical_car_event actor (vehicle_event_to_physical_vocabulary VehicleEvent.timer_tick)
        mailbox)
