-- ===== src/Brain.antt =====
-- The brain actor: crates/common/src/twin_runtime/controller/virtual_car_actor.rs. A handler gives
-- the brain's next state, what it does to the world in order, and its result; what the runtime
-- and the clock answer stands in `Env`.
pub mod Commit
pub mod Handle
pub mod Queue
pub mod Drain
pub mod Order
pub mod Replies
pub mod Quiet
pub mod Ledger
pub mod Car
pub mod Routine
pub mod Lacks
pub mod Landing
pub mod Tells
pub mod Success
pub mod Retell
use sdv_simulation.Prelude.{
  ℕ, ◌+◌, ◌%◌, ◌^◌, Bool, true, false, List, [], ◌∷◌, ◌++◌, Option, none, some, if◌then◌else◌,
}
use sdv_simulation.Prelude.Word.{u64_max, saturating_add}
use sdv_simulation.Prelude.Result.{Result, ok, err}
use sdv_simulation.Physics.{Instant}
use sdv_simulation.Modes.{AssemblyId, FsmState}
use sdv_simulation.Logs.{LogText, FrontHeadlampSwitchDirection}
use sdv_simulation.Zones.{VehicleContext}
use sdv_simulation.Zones.Headlamp.{HeadlampMessage, HeadlampState}
use sdv_simulation.Zones.Wiper.{WiperMessage}
use sdv_simulation.Fsm.Machineries.{DomainAction}
use sdv_simulation.Twin.{DigitalTwinCar, DigitalTwinCarError, CarSnapshot, ZoneReply, ZoneMessage}
use sdv_simulation.Barrier.{TellBackTimer}
use sdv_simulation.Barrier.Entry.{BarrierEntry}
use sdv_simulation.Barrier.Wait.{
  synthetic_unresponsive_headlamp_reply, synthetic_unresponsive_wiper_reply,
}
use sdv_simulation.Published.{SessionEpoch}
use sdv_simulation.Published.Record.{PublishedTransitionRecord}
use sdv_simulation.Actuation.{ActuationCommand, ActuationError, DefaultActuationManager}

pub data TransitionSinkError : Type 0 where
  full closed : TransitionSinkError

-- The messages of crates/common/src/diagnostic/mod.rs that the brain emits, before formatting.
pub data Diagnostic : Type 0 where
  timer_tick : Diagnostic
  warning : LogText → Diagnostic
  actuation_failure : DomainAction → ActuationError → Diagnostic
  state_transition : FsmState → VehicleContext → Diagnostic
  front_headlamp_confirmed : FrontHeadlampSwitchDirection → Diagnostic
  transition_sink_full transition_sink_closed : Diagnostic

pub data Effect : Type 0 where
  -- the message, turn_id, tell_attempt, now
  tell : ZoneMessage → ℕ → ℕ → Instant → Effect
  arm abort : TellBackTimer → Effect
  publish : PublishedTransitionRecord → Effect
  diagnose : Diagnostic → Effect
  command : ActuationCommand → Effect
  answer : CarSnapshot → Effect
  stop_zone : AssemblyId → Effect

pub data ActorProcessingErr : Type 0 where
  zone_unreachable no_zone_message status_reply no_hops : ActorProcessingErr
  invalid_twin : DigitalTwinCarError → ActorProcessingErr

pub data StatusPort : Type 0 where
  is_closed listening broken : StatusPort

-- What the runtime answers: the k-th reading of the clock, whether a tell of a turn and attempt
-- reaches its zone, what the sink of the ledger says to a record of that number, and the port of a
-- status request. The options are those of `VehicleControllerRuntimeOptions`.
pub record Env : Type 0 where
  pub clock : ℕ → Instant
  pub zone_accepts : ZoneMessage → ℕ → ℕ → Bool
  pub transition_sink : Option (ℕ → Option TransitionSinkError)
  pub has_diagnostic_sink : Bool
  pub log_timer_tick : Bool
  pub status_port : StatusPort

-- `VirtualCarRuntimeState` less the handles of the runtime; `clock_reads` counts the calls of
-- `Instant::now`.
pub record Brain : Type 0 where
  pub twin_car : DigitalTwinCar
  pub next_turn_id : ℕ
  pub barrier_queue : List BarrierEntry
  pub next_record_seq : ℕ
  pub session_epoch : SessionEpoch
  pub actuation_manager : DefaultActuationManager
  pub clock_reads : ℕ

pub record Outcome : Type 0 where
  pub brain : Brain
  pub effects : List Effect
  pub result : Result ActorProcessingErr (Unit {0})

abbrev pub did : List Effect → Brain → Outcome
did effects b = record { brain = b; effects = effects; result = ok tt }

abbrev pub fail : ActorProcessingErr → Brain → Outcome
fail e b = record { brain = b; effects = []; result = err e }

abbrev pub behind : List Effect → Outcome → Outcome
behind effects o = record o { effects = effects ++ o.effects }

-- `?` and what follows it: the first error ends the handler, with what was done so far.
abbrev pub and_then : (Brain → Outcome) → Outcome → Outcome
and_then f o = elim o.result [ ok u ↦ behind o.effects (f o.brain) | err e ↦ o ]

-- A diagnostic goes out where there is a sink for it; what the sink says is ignored.
abbrev pub diag : Env → Diagnostic → List Effect
diag env d = if env.has_diagnostic_sink then diagnose d ∷ [] else []

abbrev pub read_clock : Env → Brain → Instant
read_clock env b = env.clock b.clock_reads

abbrev pub tick : Brain → Brain
tick b = record b { clock_reads = b.clock_reads + 1 }

-- The counter after an allocation; the id allocated is the counter before it.
abbrev pub advance_id : ℕ → ℕ
advance_id n = saturating_add u64_max n 1

abbrev pub become_on_message_for : AssemblyId → ZoneMessage
become_on_message_for AssemblyId.headlamp = ZoneMessage.headlamp HeadlampMessage.become_on
become_on_message_for AssemblyId.wiper = ZoneMessage.wiper WiperMessage.become_on

abbrev pub become_off_message_for : AssemblyId → ZoneMessage
become_off_message_for AssemblyId.headlamp = ZoneMessage.headlamp HeadlampMessage.become_off
become_off_message_for AssemblyId.wiper = ZoneMessage.wiper WiperMessage.become_off

abbrev pub synthetic_reply_for : VehicleContext → AssemblyId → ZoneReply
synthetic_reply_for ctx AssemblyId.headlamp =
    ZoneReply.headlamp (synthetic_unresponsive_headlamp_reply ctx.headlamp)
synthetic_reply_for ctx AssemblyId.wiper =
    ZoneReply.wiper (synthetic_unresponsive_wiper_reply ctx.wiper)

unfoldable pub tell_zone : Env → ZoneMessage → ℕ → ℕ → Instant → Brain → Outcome
tell_zone env message turn_id tell_attempt now b =
    if env.zone_accepts message turn_id tell_attempt
    then did (tell message turn_id tell_attempt now ∷ []) b
    else fail zone_unreachable b

abbrev pub tell_back_timer : AssemblyId → ℕ → ℕ → TellBackTimer
tell_back_timer zone_id turn_id tell_attempt = record {
  zone_id = zone_id;
  turn_id = turn_id;
  tell_attempt = tell_attempt;
}

abbrev pub push_back : BarrierEntry → Brain → Brain
push_back e b = record b { barrier_queue = b.barrier_queue ++ e ∷ [] }

abbrev pub front_headlamp_confirmed_direction :
    HeadlampState → HeadlampState → Option FrontHeadlampSwitchDirection
front_headlamp_confirmed_direction HeadlampState.on_requested HeadlampState.on =
    some FrontHeadlampSwitchDirection.on
front_headlamp_confirmed_direction HeadlampState.off_requested HeadlampState.ready =
    some FrontHeadlampSwitchDirection.off
front_headlamp_confirmed_direction _ _ = none
