-- ===== src/Together/Exchange.antt =====
-- One exchange of the brain with a zone, as the brain sees it:
-- crates/common/src/twin_runtime/controller/virtual_car_actor.rs. The queue is empty when the
-- event comes, and the zone answers the first tell.
use sdv_simulation.Prelude.{
  zero, ◌+◌, true, subst, [], ◌∷◌, sym, none, some, ◌≡◌, refl, ap, ◌∙◌, inl, inr, append-nil,
}
use sdv_simulation.Prelude.Result.{Result-cases, ok}
use sdv_simulation.Modes.{AssemblyId, FsmState}
use sdv_simulation.Fsm.Machineries.{FsmEvent}
use sdv_simulation.Twin.{ZoneMessage, ZoneReply, DigitalTwinCarVocabulary}
use sdv_simulation.Turn.{ResolvedTurn}
use sdv_simulation.Turn.Replies
use sdv_simulation.Turn.Zone.{user_event_to_zone_tell, zone_message_for_event}
use sdv_simulation.Barrier.{TurnBarrier, TellBackTimer, new, add_pending_zone}
use sdv_simulation.Barrier.Wait
use sdv_simulation.Barrier.Entry.{waiting}
use sdv_simulation.Brain.{
  Env, Brain, Outcome, tell, arm, abort, did, behind, and_then, tell_zone, advance_id, read_clock,
  tell_back_timer,
}
use sdv_simulation.Brain.Commit.{commit_resolved_turn}
use sdv_simulation.Together.Head.{answers_head}
use sdv_simulation.Brain.Handle.{
  pushed_turn, begin_fsm_turn, drain, tick_diag, try_drain_barrier_queue, ingest, handle,
}

-- The brain once it has given the event its turn id and its time.
abbrev pub opened : Brain → Brain
opened b = record b { next_turn_id = advance_id b.next_turn_id; clock_reads = b.clock_reads + 1 }

abbrev pub first_timer : AssemblyId → Brain → TellBackTimer
first_timer a b = tell_back_timer a b.next_turn_id 0

abbrev pub barrier_of : Env → FsmEvent → AssemblyId → ZoneMessage → Brain → TurnBarrier
barrier_of env e a m b =
    add_pending_zone a m (Wait.new b.next_turn_id) (first_timer a b)
      (new b.next_turn_id e (read_clock env b))

-- The brain that waits for that zone's answer.
abbrev pub waiting_on : Env → FsmEvent → AssemblyId → ZoneMessage → Brain → Brain
waiting_on env e a m b = record (opened b) { barrier_queue = waiting (barrier_of env e a m b) ∷ [] }

abbrev pub answered_turn : Env → FsmEvent → AssemblyId → ZoneReply → Brain → ResolvedTurn
answered_turn env e a z b = record {
  ingress = e;
  now = read_clock env b;
  zone_replies = Replies.with_reply a z;
}

pub idle_brain : (b : Brain) → b.barrier_queue ≡ [] → record b { barrier_queue = [] } ≡ b
idle_brain b idle = ap (λ q. record b { barrier_queue = q }) (sym idle)

-- An event with a tell is no heartbeat, whose arrival may be logged.
tick_diag_told :
    (env : Env) (e : FsmEvent) (a : AssemblyId) (m : ZoneMessage)
    → user_event_to_zone_tell e ≡ some (a, m)
    → tick_diag env e ≡ []
unfolding user_event_to_zone_tell
tick_diag_told env FsmEvent.timer_tick a m told = cc
tick_diag_told env _ a m told = refl

pub told_by_user_event :
    (e : FsmEvent) (s : FsmState) (a : AssemblyId) (m : ZoneMessage)
    → zone_message_for_event e s ≡ some (a, m)
    → user_event_to_zone_tell e ≡ some (a, m)
unfolding zone_message_for_event
told_by_user_event e (FsmState.preparing_to_start _) a m told = cc
told_by_user_event e (FsmState.preparing_to_stop _) a m told = cc
told_by_user_event e _ a m told = told

opens_empty :
    (env : Env) (e : FsmEvent) (a : AssemblyId) (m : ZoneMessage) (c : Brain)
    → zone_message_for_event e c.twin_car.current_state ≡ some (a, m)
    → env.zone_accepts m c.next_turn_id 0 ≡ true
    → let b = record c { barrier_queue = [] } in
      handle env (DigitalTwinCarVocabulary.fsm e) b
      ≡ did
          (tell m b.next_turn_id 0 (read_clock env b) ∷ arm (first_timer a b) ∷ [])
          (waiting_on env e a m b)
unfolding handle ingest begin_fsm_turn pushed_turn tell_zone try_drain_barrier_queue drain
opens_empty env e a m c told there =
    let silent =
      tick_diag_told env e a m (told_by_user_event e c.twin_car.current_state a m told) in
    rw (silent, told, there) refl

pub drain-zero : (env : Env) (o : Outcome) → and_then (drain zero env) o ≡ o
unfolding drain
drain-zero env o = elim (Result-cases o.result) [
  | inl (u, e) ↦
      rw e
        (ap (λ es. record { brain = o.brain; effects = es; result = ok u }) (append-nil o.effects))
  | inr (x, e) ↦ rw e refl
]

closes_empty :
    (env : Env) (e : FsmEvent) (a : AssemblyId) (m : ZoneMessage) (z : ZoneReply) (c : Brain)
    → let b = record c { barrier_queue = [] } in
      handle env (DigitalTwinCarVocabulary.zone_ready a b.next_turn_id 0 z) (waiting_on env e a m b)
      ≡ behind
          (abort (first_timer a b) ∷ [])
          (commit_resolved_turn env (answered_turn env e a z b) (opened b))
closes_empty env e a m z c =
    let b = record c { barrier_queue = [] } in
    answers_head env b.next_turn_id e (read_clock env b) m z [] a (opened b)
    ∙ ap (behind (abort (first_timer a b) ∷ [])) (drain-zero env _)

-- An event whose message reaches its zone, from an empty queue, is one tell under the turn's id
-- and one timer; the turn waits.
pub exchange_opens :
    (env : Env) (e : FsmEvent) (a : AssemblyId) (m : ZoneMessage) (b : Brain)
    → b.barrier_queue ≡ []
    → zone_message_for_event e b.twin_car.current_state ≡ some (a, m)
    → env.zone_accepts m b.next_turn_id 0 ≡ true
    → handle env (DigitalTwinCarVocabulary.fsm e) b
      ≡ did
          (tell m b.next_turn_id 0 (read_clock env b) ∷ arm (first_timer a b) ∷ [])
          (waiting_on env e a m b)
exchange_opens env e a m b idle told there =
    rw (idle_brain b idle) at (opens_empty env e a m b told there)

-- The zone's answer aborts the timer and commits the turn with that answer, and nothing else.
pub exchange_closes :
    (env : Env) (e : FsmEvent) (a : AssemblyId) (m : ZoneMessage) (z : ZoneReply) (b : Brain)
    → b.barrier_queue ≡ []
    → handle env (DigitalTwinCarVocabulary.zone_ready a b.next_turn_id 0 z) (waiting_on env e a m b)
      ≡ behind
          (abort (first_timer a b) ∷ [])
          (commit_resolved_turn env (answered_turn env e a z b) (opened b))
exchange_closes env e a m z b idle =
    subst
      (λ (x : Brain).
        handle env (DigitalTwinCarVocabulary.zone_ready a x.next_turn_id 0 z)
          (waiting_on env e a m x)
        ≡ behind (abort (first_timer a x) ∷ [])
            (commit_resolved_turn env (answered_turn env e a z x) (opened x)))
      (idle_brain b idle) (closes_empty env e a m z b)

-- The turn in which the brain computes the zone's answer itself.
abbrev pub local_turn : Env → FsmEvent → Brain → ResolvedTurn
local_turn env e b = record {
  ingress = e;
  now = read_clock env b;
  zone_replies = Replies.simulate_locally;
}

passes_empty :
    (env : Env) (e : FsmEvent) (c : Brain)
    → zone_message_for_event e c.twin_car.current_state ≡ none
    → tick_diag env e ≡ []
    → let b = record c { barrier_queue = [] } in
      handle env (DigitalTwinCarVocabulary.fsm e) b
      ≡ commit_resolved_turn env (local_turn env e b) (opened b)
unfolding handle ingest begin_fsm_turn pushed_turn try_drain_barrier_queue drain
passes_empty env e c untold silent = rw (silent, untold) (drain-zero env _)

-- From an empty queue an event that no zone is told of is committed at once.
pub passes :
    (env : Env) (e : FsmEvent) (b : Brain)
    → b.barrier_queue ≡ []
    → zone_message_for_event e b.twin_car.current_state ≡ none
    → tick_diag env e ≡ []
    → handle env (DigitalTwinCarVocabulary.fsm e) b
      ≡ commit_resolved_turn env (local_turn env e b) (opened b)
passes env e b idle untold silent =
    subst
      (λ (x : Brain).
        handle env (DigitalTwinCarVocabulary.fsm e) x
        ≡ commit_resolved_turn env (local_turn env e x) (opened x))
      (idle_brain b idle) (passes_empty env e b untold silent)
