-- ===== src/Examples/Traffic.antt =====
-- The bus, the actuators and the gateway at concrete inputs.
use sdv_simulation.Prelude.{
  ℕ, ◌≡◌, ◌⊎◌, refl, Bool, true, false, none, some, List, [], ◌∷◌, ◌++◌, is_some, arith,
}
use sdv_simulation.Ingress.{project, fsm}
use sdv_simulation.Fsm.Machineries.{DomainAction}
use sdv_simulation.Actuation.{CorrelationId, DefaultActuationManager, execute, start_wiper}
use sdv_simulation.Actuation.Numbers
use sdv_simulation.Actuation.Numbers.{Distinct, run-Distinct}
use sdv_simulation.Can.{raw_id, build}
use sdv_simulation.Actuators.{should_respond, should_send_ack_response}
use sdv_simulation.Bus.{decode_payload, encode_payload, FrontHeadlampActuationPayload, kind_ack_on}
use sdv_simulation.Bus.Policy.{
  FrontHeadlampPolicy, IgnoreReason, accept, ignore, on_command_sent, on_response, pending_of,
}
use sdv_simulation.Bus.Wire.{command_of, heard_as, response_event}
use sdv_simulation.Bus.Exact.{IsDue, no_command, on_response_exact}
use sdv_simulation.Prelude.Double.{quotient, times, fitting, f64_as_u16}
use sdv_simulation.Can.Signals.{speed_of_raw, raw_of_speed, from_can_frame}
use sdv_simulation.Can.Headlamp
use sdv_simulation.Can.Headlamp.{encode_command_frame, encode_ack_frame, encode_nack_frame}
use sdv_simulation.Can.Wiper
use sdv_simulation.Can.Wiper.{encode_wiper_command_frame}
use sdv_simulation.Can.Traffic.{Apart, one_reader}
use sdv_simulation.Can.Encoders.{Encodes, one_device-Encodes}
use sdv_simulation.Actuators.LogQueue.{LogQueue}
use sdv_simulation.Actuators.Drops.{IsAccounted, log, drain_one, run, fresh, fresh-IsAccounted}
use sdv_simulation.Actuators.Headlamp.{Draws, round}
use sdv_simulation.Actuators.Wiper as WiperActuator
use sdv_simulation.Actuators.Answer.{response_starts_nothing}
use sdv_simulation.Gateway.{read_frame, actuation_response}
use sdv_simulation.Gateway.Egress.{publish}
use sdv_simulation.Gateway.Confirmation.{command_confirmed}
use sdv_simulation.Gateway.Requests.{next_id, second_request_stands}
use sdv_simulation.Gateway.Motor.{wiper_command_obeyed, wiper_command}
use sdv_simulation.Gateway.Dispatch.{run_dispatch_loop, channel_closed}
use sdv_simulation.Gateway.Streams.{Turn, reads, sends, read_all}
use sdv_simulation.Gateway.Delivery.{queue_all, gateway_delivers}
use sdv_simulation.Examples.Wire.{wire, wire_IsLawful, thousandths, taking}

abbrev old : CorrelationId
old = record { source_id = 86 ∷ []; session_id = 70000; sequence_no = 7 }

abbrev newer : CorrelationId
newer = record { source_id = 86 ∷ []; session_id = 70000; sequence_no = 8 }

abbrev quiet : FrontHeadlampPolicy
quiet = record { pending = none }

abbrev queue : LogQueue
queue = record { capacity = 2; entries = []; dropped = 0; connected = true }

-- It responds, with an ACK.
abbrev willing : Draws wire thousandths
willing = record {
  dont_respond_prob = 0;
  ack_nack_response_prob = 700;
  respond_draw = 300;
  ack_draw = 650;
  write_succeeds = true;
}

-- A speed of 0.29 km/h is written as 28 hundredths, one of 0.3 km/h as 30.
speeds_written : (raw_of_speed (speed_of_raw 29) ≡ 28) × (raw_of_speed (speed_of_raw 30) ≡ 30)
unfolding quotient times fitting f64_as_u16
speeds_written = (refl, refl)

one_reader_example :
    Apart
      (is_some (from_can_frame wire (0x205, 17 ∷ 0 ∷ [])))
      (is_some (Headlamp.decode_payload_from_can_frame wire (0x205, 17 ∷ 0 ∷ [])))
      (is_some (Wiper.decode_payload_from_can_frame wire (0x205, 17 ∷ 0 ∷ [])))
one_reader_example = one_reader wire (0x205, 17 ∷ 0 ∷ [])

one_device-Encodes_example :
    Encodes false (encode_command_frame wire start_wiper)
    × Encodes false (encode_ack_frame wire start_wiper)
    × Encodes false (encode_nack_frame wire start_wiper)
    × Encodes true (encode_wiper_command_frame wire start_wiper)
one_device-Encodes_example = one_device-Encodes wire wire_IsLawful start_wiper

fresh-IsAccounted_example : IsAccounted 4 (run (log ∷ log ∷ drain_one ∷ log ∷ log ∷ []) (fresh 1))
fresh-IsAccounted_example =
    fresh-IsAccounted (log ∷ log ∷ drain_one ∷ log ∷ log ∷ []) 1 (omega arith)

abbrev due : FrontHeadlampActuationPayload
due = record { kind = kind_ack_on; session_id = 4464; sequence_no = 7 }

abbrev waiting : FrontHeadlampPolicy
waiting = record { pending = some (pending_of true old) }

on_response_exact_example :
    ((on : Bool) × (is_ack : Bool) × IsDue waiting due on is_ack
      × (on_response due waiting ≡ (no_command, accept (heard_as on is_ack) 4464 7)))
    ⊎ (((on is_ack : Bool) → ¬ IsDue waiting due on is_ack)
        × ((why : IgnoreReason) × (on_response due waiting ≡ (waiting, ignore why))))
on_response_exact_example = on_response_exact waiting due

-- The command frame of `old`.
abbrev command_frame : ℕ × List ℕ
command_frame = (0x204, 1 ∷ 17 ∷ 112 ∷ 0 ∷ 0 ∷ 0 ∷ 7 ∷ 0 ∷ [])

abbrev ack_frame : ℕ × List ℕ
ack_frame = (0x204, 129 ∷ 17 ∷ 112 ∷ 0 ∷ 0 ∷ 0 ∷ 7 ∷ 0 ∷ [])

response_starts_nothing_example :
    (round wire thousandths willing (some ack_frame) queue ≡ (queue, none))
    × (WiperActuator.round wire thousandths 0 300 (some ack_frame) queue ≡ (queue, none))
unfolding round Headlamp.decode_payload_from_can_frame Headlamp.known_payload raw_id decode_payload
    Headlamp.actuation_command_from_cmd_payload should_respond should_send_ack_response
    encode_ack_frame Headlamp.build_frame Headlamp.actuation_command_wire_meta build encode_payload
response_starts_nothing_example =
    response_starts_nothing wire wire_IsLawful thousandths willing willing 0 300 command_frame
      ack_frame queue queue refl

command_confirmed_example :
    let sent = on_command_sent (command_of true old) quiet in
    (f : ℕ × List ℕ) × (g : ℕ × List ℕ) × (publish wire quiet (command_of true old)
      ≡ (sent, some f))
    × (read_frame wire sent (some f) ≡ (sent, none))
    × ((round wire thousandths willing (some f) queue).1 ≡ some g)
    × ((read_frame wire sent (some g)).1 ≡ some (actuation_response (heard_as true true) 4464 7))
    × ((read_frame wire (read_frame wire sent (some g)).0 (some g)).1 ≡ none)
    × (project (heard_as true true) ≡ fsm (response_event true true))
unfolding should_respond should_send_ack_response
command_confirmed_example =
    command_confirmed wire wire_IsLawful thousandths willing quiet queue true old refl

wiper_command_obeyed_example :
    (f : ℕ × List ℕ) × (publish wire quiet (wiper_command true) ≡ (quiet, some f))
    × ((WiperActuator.round wire thousandths 0 300 (some f) queue).1 ≡ some true)
    × (round wire thousandths willing (some f) queue ≡ (queue, none))
    × (read_frame wire quiet (some f) ≡ (quiet, none))
unfolding should_respond
wiper_command_obeyed_example =
    wiper_command_obeyed wire wire_IsLawful thousandths quiet willing queue 0 300 true refl

-- A command goes out, its ACK comes in, and so does an rpm.
abbrev traffic : List (Turn wire)
traffic =
    sends (command_of true old) ∷ reads (some ack_frame) ∷ reads (some (0x102, 21 ∷ 224 ∷ [])) ∷ []

gateway_delivers_example :
    let es = read_all wire quiet traffic in
    let done = run_dispatch_loop taking es (record { mailbox = []; log = none }) in
    (done.0 ≡ channel_closed) × (done.1.mailbox ≡ queue_all taking (λ m b. b ++ (m ∷ [])) es [])
gateway_delivers_example =
    gateway_delivers taking (λ m b. b ++ (m ∷ [])) (λ m b. refl) wire quiet traffic
      (record { mailbox = []; log = none })

-- Its counter is about to wrap.
abbrev manager : DefaultActuationManager
manager = record {
  source_id = some (86 ∷ []);
  session_id = 70000;
  next_sequence_no = 18446744073709551615;
  has_channel = true;
}

run-Distinct_example : Distinct (
    Numbers.run
      (DomainAction.request_front_headlamp_on ∷ DomainAction.request_wiper_start
        ∷ DomainAction.request_front_headlamp_off ∷ [])
      manager)
run-Distinct_example =
    run-Distinct
      (DomainAction.request_front_headlamp_on ∷ DomainAction.request_wiper_start
        ∷ DomainAction.request_front_headlamp_off ∷ [])
      manager (omega arith)

second_request_stands_example :
    let m' = (execute DomainAction.request_front_headlamp_on manager).manager in
    let first_command = command_of true (next_id (86 ∷ []) manager) in
    let new_command = command_of false (next_id (86 ∷ []) m') in
    let first = (publish wire quiet first_command).0 in
    let second = (publish wire first new_command).0 in
    ((execute DomainAction.request_front_headlamp_on manager).commands ≡ first_command ∷ [])
    × ((execute DomainAction.request_front_headlamp_off m').commands ≡ new_command ∷ [])
    × ((f : ℕ × List ℕ) × (g : ℕ × List ℕ) × ((publish wire quiet first_command).1 ≡ some f)
        × ((round wire thousandths willing (some f) queue).1 ≡ some g)
        × (read_frame wire second (some g) ≡ (second, none))
        × (second.pending ≡ some (pending_of false (next_id (86 ∷ []) m'))))
unfolding should_respond
second_request_stands_example =
    second_request_stands wire wire_IsLawful thousandths willing quiet queue true false (86 ∷ [])
      manager refl refl refl
