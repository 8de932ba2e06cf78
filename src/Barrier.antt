-- ===== src/Barrier.antt =====
-- The reorder buffer's entries: crates/common/src/twin_runtime/turn_barrier.rs. A timer handle is
-- the message that the timer sends; what the code aborts is part of an operation's result.
pub mod Wait
pub mod Entry
pub mod Retries
pub mod Coverage
pub mod Taken
use sdv_simulation.Prelude.{
  ℕ, Bool, true, false, ◌&&◌, List, [], ◌∷◌, Option, none, some, ◌==◌, ltb, is_empty, filter_map,
  if◌then◌else◌, not, filter,
}
use sdv_simulation.Physics.{Instant}
use sdv_simulation.Modes.{AssemblyId, all_assemblies, assembly_eq}
use sdv_simulation.AssemblyMap.{AssemblyMap, empty, insert, remove}
use sdv_simulation.Fsm.Machineries.{FsmEvent}
use sdv_simulation.Twin.{ZoneReply, ZoneMessage}
use sdv_simulation.Turn.Replies
use sdv_simulation.Turn.{ResolvedTurn}
use Wait.{TellBackWait, advance}

pub record TellBackTimer : Type 0 where
  pub zone_id : AssemblyId
  pub turn_id : ℕ
  pub tell_attempt : ℕ

pub data TimeoutOutcome : Type 0 where
  retry : ℕ → TimeoutOutcome
  gave_up : TimeoutOutcome

-- `BTreeSet::insert` and `remove` of an assembly.
abbrev pub set_insert : AssemblyId → List AssemblyId → List AssemblyId
set_insert a [] = a ∷ []
set_insert AssemblyId.headlamp (AssemblyId.headlamp ∷ s) = AssemblyId.headlamp ∷ s
set_insert AssemblyId.headlamp (AssemblyId.wiper ∷ s) = AssemblyId.headlamp ∷ AssemblyId.wiper ∷ s
set_insert AssemblyId.wiper (AssemblyId.headlamp ∷ s) =
    AssemblyId.headlamp ∷ set_insert AssemblyId.wiper s
set_insert AssemblyId.wiper (AssemblyId.wiper ∷ s) = AssemblyId.wiper ∷ s

abbrev pub set_remove : AssemblyId → List AssemblyId → List AssemblyId
set_remove a = filter (λ b. not (assembly_eq b a))

pub record TurnBarrier : Type 0 where
  pub turn_id : ℕ
  pub event : FsmEvent
  pub now : Instant
  pub pending : List AssemblyId
  pub zone_waits : AssemblyMap TellBackWait
  pub zone_timers : AssemblyMap TellBackTimer
  pub zone_replies : AssemblyMap ZoneReply
  pub zone_messages : AssemblyMap ZoneMessage

abbrev pub new : ℕ → FsmEvent → Instant → TurnBarrier
new turn_id event now = record {
  turn_id = turn_id;
  event = event;
  now = now;
  pending = [];
  zone_waits = empty;
  zone_timers = empty;
  zone_replies = empty;
  zone_messages = empty;
}

abbrev pub add_pending_zone :
    AssemblyId → ZoneMessage → TellBackWait → TellBackTimer → TurnBarrier → TurnBarrier
add_pending_zone a message wait timer b = record b {
  pending = set_insert a b.pending;
  zone_messages = insert a message b.zone_messages;
  zone_waits = insert a wait b.zone_waits;
  zone_timers = insert a timer b.zone_timers;
}

abbrev pub new_for_assembly_zone :
    ℕ → AssemblyId → ZoneMessage → TellBackWait → TellBackTimer → Instant → TurnBarrier
new_for_assembly_zone turn_id a message wait timer now =
    add_pending_zone a message wait timer (new turn_id (FsmEvent.assembly_zone_ready a) now)

abbrev pub is_complete : TurnBarrier → Bool
is_complete b = is_empty b.pending

unfoldable pub tell_attempt_matches : AssemblyId → ℕ → TurnBarrier → Bool
tell_attempt_matches a tell_attempt b = elim (b.zone_waits a) [
  | none ↦ false
  | some w ↦ w.tell_attempt == tell_attempt
]

abbrev pub zone_message : AssemblyId → TurnBarrier → Option ZoneMessage
zone_message a b = b.zone_messages a

abbrev pub store_retry_timer : AssemblyId → TellBackTimer → TurnBarrier → TurnBarrier
store_retry_timer a timer b = record b { zone_timers = insert a timer b.zone_timers }

-- The barrier after the reply, and the timer that it aborts.
unfoldable pub act_on_zone_reply :
    AssemblyId → ZoneReply → TurnBarrier → TurnBarrier × Option TellBackTimer
act_on_zone_reply a reply b = (
  record b {
    pending = set_remove a b.pending;
    zone_replies = insert a reply b.zone_replies;
    zone_timers = remove a b.zone_timers;
  },
  b.zone_timers a,
)

abbrev pub after_timeout :
    AssemblyId → ℕ → TurnBarrier → Option TellBackWait → TurnBarrier × TimeoutOutcome
after_timeout a tell_attempt b none = (b, gave_up)
after_timeout a tell_attempt b (some wait) =
    if wait.tell_attempt == tell_attempt && ltb 0 wait.retries_remaining
    then (
      record b { zone_waits = insert a (advance wait) b.zone_waits },
      retry (advance wait).tell_attempt,
    )
    else (b, gave_up)

unfoldable pub act_on_zone_timeout : AssemblyId → ℕ → TurnBarrier → TurnBarrier × TimeoutOutcome
act_on_zone_timeout a tell_attempt b =
    after_timeout a tell_attempt (record b { zone_timers = remove a b.zone_timers })
      (b.zone_waits a)

-- The barrier with no timer, and the timers that it aborts.
abbrev pub abort_all_timers : TurnBarrier → TurnBarrier × List TellBackTimer
abort_all_timers b = (record b { zone_timers = empty }, filter_map b.zone_timers all_assemblies)

abbrev pub into_resolved_turn : TurnBarrier → ResolvedTurn
into_resolved_turn b = record {
  ingress = b.event;
  now = b.now;
  zone_replies = record { replies = b.zone_replies };
}
