-- ===== src/Brain/Order/Handlers.antt =====
-- The order of turn ids across timeouts, the drain loop and whole messages:
-- crates/common/src/twin_runtime/controller/virtual_car_actor.rs.
use sdv_simulation.Prelude.{
  ℕ, zero, suc, ◌≤◌, ◌<◌, List, [], ◌∷◌, length, Option, none, some, ◌≡◌, inl, inr, refl, ◌∙◌,
  arith, Bool-cases, Option-cases,
}
use sdv_simulation.Prelude.Word.{u64_max}
use sdv_simulation.Modes.{AssemblyId}
use sdv_simulation.Twin.{CarSnapshot, DigitalTwinCarVocabulary, ZoneMessage, ZoneSpontaneousEvent}
use sdv_simulation.Turn.{ResolvedTurn}
use sdv_simulation.Barrier.{
  TurnBarrier, TimeoutOutcome, retry, gave_up, act_on_zone_reply, act_on_zone_timeout,
  tell_attempt_matches, store_retry_timer,
}
use sdv_simulation.Barrier
use sdv_simulation.Barrier.Entry.{BarrierEntry, waiting, passthrough}
use sdv_simulation.Barrier.Entry
use sdv_simulation.Brain.{
  Env, Brain, tell_zone, synthetic_reply_for, tell_back_timer, tick, read_clock, StatusPort,
}
use sdv_simulation.Brain.Commit.{commit_resolved_turn}
use sdv_simulation.Brain.Handle.{
  find_waiting, put, retold, decided, on_zone_timeout, on_zone_spontaneous, drain,
  try_drain_barrier_queue, ingest, answered, handle,
}
use sdv_simulation.Brain.Drain.{popped, drain-nil, drain-stop, drain-step}
use sdv_simulation.Brain.Queue.{ids, Ascending-weaken, commit_resolved_turn-Grows}
use sdv_simulation.Brain.Order.{
  IsOrdered, KeepsOrder, KeepsOrder-same, KeepsOrder-trans, KeepsOrder-and_then, Grows-KeepsOrder,
  put-KeepsOrder, replied-KeepsOrder, on_zone_ready-KeepsOrder, begin_fsm_turn-KeepsOrder,
  find_waiting-turn_id,
}

retold-KeepsOrder :
    (env : Env) (t : ℕ) (a : AssemblyId) (k : ℕ) (w : TurnBarrier) (o : Option ZoneMessage)
    (b : Brain)
    → w.turn_id ≡ t
    → KeepsOrder b (retold env t a k w o b).brain
unfolding retold tell_zone
retold-KeepsOrder env t a k w none b h = KeepsOrder-same b b refl refl
retold-KeepsOrder env t a k w (some message) b h =
    elim (Bool-cases (env.zone_accepts message t k)) [
      | inl e ↦ rw e (put-KeepsOrder t (store_retry_timer a (tell_back_timer a t k) w) b h)
      | inr e ↦ rw e (KeepsOrder-same b b refl refl)
    ]

decided-KeepsOrder :
    (env : Env) (t : ℕ) (a : AssemblyId) (b : Brain) (d : TurnBarrier × TimeoutOutcome)
    → d.0.turn_id ≡ t
    → KeepsOrder b (decided env t a b d).brain
unfolding decided
decided-KeepsOrder env t a b (w, retry k) h =
    KeepsOrder-trans b (put t w b) _ (put-KeepsOrder t w b h)
      (retold-KeepsOrder env t a k w (Barrier.zone_message a w) (put t w b) h)
decided-KeepsOrder env t a b (w, gave_up) h =
    KeepsOrder-trans b (put t w b) _ (put-KeepsOrder t w b h)
      (replied-KeepsOrder t a (synthetic_reply_for b.twin_car.context a) w (put t w b) h)

pub act_on_zone_timeout-turn_id :
    (a : AssemblyId) (k : ℕ) (w : TurnBarrier) → (act_on_zone_timeout a k w).0.turn_id ≡ w.turn_id
unfolding act_on_zone_timeout
act_on_zone_timeout-turn_id a k w = ground arith

on_zone_timeout-KeepsOrder :
    (env : Env) (a : AssemblyId) (t k : ℕ) (b : Brain)
    → KeepsOrder b (on_zone_timeout env a t k b).brain
unfolding on_zone_timeout
on_zone_timeout-KeepsOrder env a t k b = elim (Option-cases (find_waiting t b.barrier_queue)) [
  | inl e ↦ rw (on_zone_timeout, e) (KeepsOrder-same b b refl refl)
  | inr (w, e) ↦
      rw (on_zone_timeout, e)
        (decided-KeepsOrder env t a b (act_on_zone_timeout a k w)
          (act_on_zone_timeout-turn_id a k w ∙ find_waiting-turn_id t b.barrier_queue w e))
]

commit-KeepsOrder :
    (env : Env) (resolved : ResolvedTurn) (b : Brain)
    → KeepsOrder b (commit_resolved_turn env resolved b).brain
commit-KeepsOrder env resolved b = Grows-KeepsOrder b _ (commit_resolved_turn-Grows env resolved b)

on_zone_spontaneous-KeepsOrder :
    (env : Env) (a : AssemblyId) (e : ZoneSpontaneousEvent) (b : Brain)
    → KeepsOrder b (on_zone_spontaneous env a e b).brain
unfolding on_zone_spontaneous
on_zone_spontaneous-KeepsOrder env a (ZoneSpontaneousEvent.headlamp d c r) b =
    KeepsOrder-trans b (tick b) _ (KeepsOrder-same b (tick b) refl refl)
      (commit-KeepsOrder env _ (tick b))

ingest-KeepsOrder :
    (env : Env) (m : DigitalTwinCarVocabulary) (b : Brain) → KeepsOrder b (ingest env m b).brain
unfolding ingest
ingest-KeepsOrder env (DigitalTwinCarVocabulary.fsm e) b =
    KeepsOrder-trans b (tick b) _ (KeepsOrder-same b (tick b) refl refl)
      (begin_fsm_turn-KeepsOrder env e (read_clock env b) (tick b))
ingest-KeepsOrder env (DigitalTwinCarVocabulary.zone_ready a t k r) b =
    on_zone_ready-KeepsOrder a t k r b
ingest-KeepsOrder env (DigitalTwinCarVocabulary.zone_tell_back_timeout a t k) b =
    on_zone_timeout-KeepsOrder env a t k b
ingest-KeepsOrder env (DigitalTwinCarVocabulary.zone_spontaneous a e) b =
    on_zone_spontaneous-KeepsOrder env a e b
ingest-KeepsOrder env DigitalTwinCarVocabulary.get_status b = KeepsOrder-same b b refl refl

tail-KeepsOrder :
    (b : Brain) (e : BarrierEntry) (es : List BarrierEntry)
    → b.barrier_queue ≡ e ∷ es
    → KeepsOrder b (record b { barrier_queue = es })
tail-KeepsOrder b e es is = record {
  rises = λ s. (omega arith, s);
  ordered = λ s o h.
      let (low, rest) = (rw is at o) in
      Ascending-weaken 0 (suc (Entry.turn_id e)) (ids es) b.next_turn_id (omega arith) rest;
}

popped-KeepsOrder :
    (env : Env) (b : Brain) (e : BarrierEntry) (es : List BarrierEntry)
    → b.barrier_queue ≡ e ∷ es
    → KeepsOrder b (popped env e es b).brain
unfolding popped
popped-KeepsOrder env b e es is =
    let b' = record b { barrier_queue = es } in
    KeepsOrder-trans b b' _ (tail-KeepsOrder b e es is)
      (commit-KeepsOrder env (Entry.into_resolved_turn e) b')

drain-KeepsOrder :
    (n : ℕ) (env : Env) (b : Brain) (q : List BarrierEntry)
    → b.barrier_queue ≡ q
    → KeepsOrder b (drain n env b).brain
unfolding drain
drain-KeepsOrder zero env b q is = KeepsOrder-same b b refl refl
drain-KeepsOrder (suc n) env b [] is = rw (drain-nil n env b is) (KeepsOrder-same b b refl refl)
drain-KeepsOrder (suc n) env b (e ∷ es) is = elim (Bool-cases (Entry.is_complete e)) [
  | inl c ↦ rw (drain-step n env b e es is c) (
      KeepsOrder-and_then b (drain n env) (popped env e es b) (popped-KeepsOrder env b e es is)
        (λ b'. drain-KeepsOrder n env b' b'.barrier_queue refl))
  | inr c ↦ rw (drain-stop n env b e es is c) (KeepsOrder-same b b refl refl)
]

answered-KeepsOrder :
    (p : StatusPort) (snapshot : CarSnapshot) (b : Brain)
    → KeepsOrder b (answered p snapshot b).brain
answered-KeepsOrder StatusPort.is_closed snapshot b = KeepsOrder-same b b refl refl
answered-KeepsOrder StatusPort.listening snapshot b = KeepsOrder-same b b refl refl
answered-KeepsOrder StatusPort.broken snapshot b = KeepsOrder-same b b refl refl

handle-KeepsOrder :
    (env : Env) (m : DigitalTwinCarVocabulary) (b : Brain) → KeepsOrder b (handle env m b).brain
unfolding handle try_drain_barrier_queue
handle-KeepsOrder env DigitalTwinCarVocabulary.get_status b =
    answered-KeepsOrder env.status_port _ b
handle-KeepsOrder env m b =
    KeepsOrder-and_then b (try_drain_barrier_queue env) (ingest env m b) (ingest-KeepsOrder env m b)
      (λ b'. drain-KeepsOrder (length b'.barrier_queue) env b' b'.barrier_queue refl)

-- The turn ids in the queue ascend strictly from front to back and lie below the next id, and
-- every message keeps them so, handled or failed, as long as the 64-bit counter does not reach its
-- greatest value. Each turn id in the queue is thus that of one entry only.
pub handle-IsOrdered :
    (env : Env) (m : DigitalTwinCarVocabulary) (b : Brain)
    → IsOrdered b
    → b.next_turn_id ≤ u64_max
    → (handle env m b).brain.next_turn_id < u64_max
    → IsOrdered (handle env m b).brain
handle-IsOrdered env m b o s h = (handle-KeepsOrder env m b).ordered s o h
