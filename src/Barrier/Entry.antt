-- ===== src/Barrier/Entry.antt =====
-- `PassthroughBarrier` and `BarrierEntry` of crates/common/src/twin_runtime/turn_barrier.rs.
use sdv_simulation.Prelude.{ℕ, Bool, true, List, [], Option, none, some}
use sdv_simulation.Physics.{Instant}
use sdv_simulation.Fsm.Machineries.{FsmEvent}
use sdv_simulation.Turn.Replies
use sdv_simulation.Turn.{ResolvedTurn}
use sdv_simulation.Barrier.{TurnBarrier, TellBackTimer}
use sdv_simulation.Barrier

pub record PassthroughBarrier : Type 0 where
  pub turn_id : ℕ
  pub event : FsmEvent
  pub now : Instant

pub data BarrierEntry : Type 0 where
  waiting : TurnBarrier → BarrierEntry
  passthrough : PassthroughBarrier → BarrierEntry

abbrev pub turn_id : BarrierEntry → ℕ
turn_id (waiting b) = b.turn_id
turn_id (passthrough b) = b.turn_id

abbrev pub is_complete : BarrierEntry → Bool
is_complete (waiting b) = Barrier.is_complete b
is_complete (passthrough b) = true

abbrev pub into_resolved_turn : BarrierEntry → ResolvedTurn
into_resolved_turn (waiting b) = Barrier.into_resolved_turn b
into_resolved_turn (passthrough b) = record {
  ingress = b.event;
  now = b.now;
  zone_replies = Replies.default;
}

-- `as_waiting` and `as_waiting_mut`.
abbrev pub as_waiting : BarrierEntry → Option TurnBarrier
as_waiting (waiting b) = some b
as_waiting (passthrough b) = none

-- The timers that are aborted; the entry is dropped with them.
abbrev pub abort_all_timers : BarrierEntry → List TellBackTimer
abort_all_timers (waiting b) = (Barrier.abort_all_timers b).1
abort_all_timers (passthrough b) = []
