-- ===== src/Together/Head.antt =====
-- The answer of the zone that the head of the queue waits for, at the first attempt:
-- crates/common/src/twin_runtime/controller/virtual_car_actor.rs.
use sdv_simulation.Prelude.{ℕ, true, List, [], ◌∷◌, length, some, ◌≡◌, refl, ap, ◌∙◌, ==_iff}
use sdv_simulation.Physics.{Instant}
use sdv_simulation.Modes.{AssemblyId}
use sdv_simulation.Fsm.Machineries.{FsmEvent}
use sdv_simulation.Twin.{ZoneMessage, ZoneReply, DigitalTwinCarVocabulary}
use sdv_simulation.Turn.{ResolvedTurn}
use sdv_simulation.Turn.Replies
use sdv_simulation.Barrier.{
  TurnBarrier, new, add_pending_zone, act_on_zone_reply, tell_attempt_matches,
}
use sdv_simulation.Barrier.Wait
use sdv_simulation.Barrier.Entry.{BarrierEntry, waiting}
use sdv_simulation.Brain.{Env, Brain, abort, did, behind, and_then, tell_back_timer}
use sdv_simulation.Brain.Commit.{commit_resolved_turn}
use sdv_simulation.Brain.Handle.{
  find_waiting, put_waiting, put, replied, on_zone_ready, drain, try_drain_barrier_queue, ingest,
  handle,
}

-- The barrier of a turn that has told one zone, once.
abbrev pub asking : ℕ → FsmEvent → Instant → AssemblyId → ZoneMessage → TurnBarrier
asking t e now a m = add_pending_zone a m (Wait.new t) (tell_back_timer a t 0) (new t e now)

abbrev pub answered_by : FsmEvent → Instant → AssemblyId → ZoneReply → ResolvedTurn
answered_by e now a z = record { ingress = e; now = now; zone_replies = Replies.with_reply a z }

pub find_waiting-head :
    (w : TurnBarrier) (es : List BarrierEntry) → find_waiting w.turn_id (waiting w ∷ es) ≡ some w
unfolding find_waiting
find_waiting-head w es = rw ((==_iff w.turn_id w.turn_id).1 refl) refl

pub put_waiting-head :
    (w v : TurnBarrier) (es : List BarrierEntry)
    → put_waiting w.turn_id v (waiting w ∷ es) ≡ waiting v ∷ es
unfolding put_waiting
put_waiting-head w v es = rw ((==_iff w.turn_id w.turn_id).1 refl) refl

module _ (env : Env) (t : ℕ) (e : FsmEvent) (now : Instant) (m : ZoneMessage) (z : ZoneReply)
    (es : List BarrierEntry) where
  first_attempt_matches : (a : AssemblyId) → tell_attempt_matches a 0 (asking t e now a m) ≡ true
  unfolding tell_attempt_matches
  first_attempt_matches AssemblyId.headlamp = refl
  first_attempt_matches AssemblyId.wiper = refl

  abbrev with_head : AssemblyId → Brain → Brain
  with_head a b = record b { barrier_queue = waiting (asking t e now a m) ∷ es }

  abbrev replied_head : AssemblyId → Brain → Brain
  replied_head a b = record b {
    barrier_queue = waiting (act_on_zone_reply a z (asking t e now a m)).0 ∷ es;
  }

  -- The barrier takes the answer and aborts the zone's timer.
  replied_takes :
      (a : AssemblyId) (b : Brain)
      → replied t a z (asking t e now a m) (with_head a b)
        ≡ did (abort (tell_back_timer a t 0) ∷ []) (replied_head a b)
  unfolding replied put act_on_zone_reply
  replied_takes AssemblyId.headlamp b =
      let w = asking t e now AssemblyId.headlamp m in
      ap
        (λ q.
          did (abort (tell_back_timer AssemblyId.headlamp t 0) ∷ [])
            (record b { barrier_queue = q }))
        (put_waiting-head w (act_on_zone_reply AssemblyId.headlamp z w).0 es)
  replied_takes AssemblyId.wiper b =
      let w = asking t e now AssemblyId.wiper m in
      ap
        (λ q.
          did (abort (tell_back_timer AssemblyId.wiper t 0) ∷ []) (record b { barrier_queue = q }))
        (put_waiting-head w (act_on_zone_reply AssemblyId.wiper z w).0 es)

  on_zone_ready_takes :
      (a : AssemblyId) (b : Brain)
      → on_zone_ready a t 0 z (with_head a b)
        ≡ did (abort (tell_back_timer a t 0) ∷ []) (replied_head a b)
  unfolding on_zone_ready
  on_zone_ready_takes a b =
      rw (on_zone_ready, find_waiting-head (asking t e now a m) es, first_attempt_matches a)
        (replied_takes a b)

  drains_head :
      (a : AssemblyId) (b : Brain)
      → try_drain_barrier_queue env (replied_head a b)
        ≡ and_then
            (drain (length es) env)
            (commit_resolved_turn env (answered_by e now a z) (record b { barrier_queue = es }))
  unfolding try_drain_barrier_queue drain act_on_zone_reply
  drains_head AssemblyId.headlamp b = refl
  drains_head AssemblyId.wiper b = refl

  -- The answer aborts the timer, commits the turn with that answer, and lets the drain loop go on
  -- with the entries behind.
  pub answers_head :
      (a : AssemblyId) (b : Brain)
      → handle env (DigitalTwinCarVocabulary.zone_ready a t 0 z) (with_head a b)
        ≡ behind (abort (tell_back_timer a t 0) ∷ []) (
            and_then
              (drain (length es) env)
              (commit_resolved_turn env (answered_by e now a z) (record b { barrier_queue = es })))
  unfolding handle ingest
  answers_head a b =
      ap (and_then (try_drain_barrier_queue env)) (on_zone_ready_takes a b)
      ∙ ap (behind (abort (tell_back_timer a t 0) ∷ [])) (drains_head a b)
