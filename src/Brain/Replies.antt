-- ===== src/Brain/Replies.antt =====
-- What tell-backs and their timeouts do to the reorder buffer of
-- crates/common/src/twin_runtime/controller/virtual_car_actor.rs.
use sdv_simulation.Prelude.{
  ℕ, true, false, List, [], ◌∷◌, some, ◌≡◌, ◌≢◌, refl, sym, ◌∙◌, arith, inl, inr, Bool-cases, ◌==◌,
  ==_iff,
}
use sdv_simulation.Modes.{AssemblyId}
use sdv_simulation.Twin.{ZoneReply}
use sdv_simulation.Barrier.{
  TurnBarrier, act_on_zone_reply, act_on_zone_timeout, tell_attempt_matches, gave_up,
}
use sdv_simulation.AssemblyMap.{remove}
use sdv_simulation.Barrier.Taken.{HasTaken, act_on_zone_reply-HasTaken, HasTaken-without_timer}
use sdv_simulation.Barrier.Wait.{TellBackWait}
use sdv_simulation.Barrier.Entry.{BarrierEntry, waiting, passthrough}
use sdv_simulation.Barrier.Entry
use sdv_simulation.Brain.{Env, Brain, did, synthetic_reply_for}
use sdv_simulation.Brain.Handle.{
  find_waiting, put_waiting, put, aborted, replied, decided, on_zone_ready, on_zone_timeout,
}
use sdv_simulation.Brain.Order.{find_waiting-turn_id}

find-put :
    (t : ℕ) (q : List BarrierEntry) (w v : TurnBarrier)
    → find_waiting t q ≡ some w
    → v.turn_id ≡ t
    → find_waiting t (put_waiting t v q) ≡ some v
unfolding find_waiting put_waiting
find-put t [] w v h k = cc
find-put t (e ∷ es) w v h k = elim (Bool-cases (Entry.turn_id e == t)) [
  | inl same ↦ let hit = (==_iff v.turn_id t).1 k in rw (same, hit) refl
  | inr other ↦ rw (other, other) (find-put t es w v (rw other at h) k)
]

different : (m n : ℕ) → m ≢ n → (m == n) ≡ false
different m n h = ground arith

find-put-other :
    (t s : ℕ) (q : List BarrierEntry) (v : TurnBarrier)
    → s ≢ t
    → v.turn_id ≡ t
    → find_waiting s (put_waiting t v q) ≡ find_waiting s q
unfolding find_waiting put_waiting
find-put-other t s [] v n k = refl
find-put-other t s (e ∷ es) v n k = elim (Bool-cases (Entry.turn_id e == t)) [
  | inl same ↦
      let here = (==_iff (Entry.turn_id e) t).0 same in
      let e_misses = different (Entry.turn_id e) s (λ h. n (sym h ∙ here)) in
      let v_misses = different v.turn_id s (λ h. n (sym h ∙ k)) in
      rw (same, v_misses, e_misses) refl
  | inr other ↦ rw other (elim (Bool-cases (Entry.turn_id e == s)) [
    | inl hit ↦ rw hit refl
    | inr miss ↦ rw miss (find-put-other t s es v n k)
  ])
]

-- A tell-back of a turn whose barrier waits. If its attempt is not the one that the barrier last
-- made, nothing changes. If it is, the turn's barrier afterwards has that reply for the zone, which
-- is pending no more and has no timer, the timer that it had is aborted, the barrier's other zone
-- is as before, and no other turn's barrier changes.
pub on_zone_ready_lem :
    (a : AssemblyId) (t k : ℕ) (r : ZoneReply) (b : Brain) (w : TurnBarrier)
    → find_waiting t b.barrier_queue ≡ some w
    → let o = on_zone_ready a t k r b in
      (tell_attempt_matches a k w ≡ false → o ≡ did [] b)
      × (tell_attempt_matches a k w ≡ true
          → (o.effects ≡ aborted (w.zone_timers a))
            × ((w' : TurnBarrier) × (find_waiting t o.brain.barrier_queue ≡ some w')
                × HasTaken a r w w')
            × ((s : ℕ)
                → s ≢ t
                → find_waiting s o.brain.barrier_queue ≡ find_waiting s b.barrier_queue))
unfolding on_zone_ready replied put act_on_zone_reply
on_zone_ready_lem a t k r b w found =
    let mine = find_waiting-turn_id t b.barrier_queue w found in
    (
      λ m. rw (on_zone_ready, found, m) refl,
      λ m.
          rw (on_zone_ready, found, m)
            (
              refl,
              (_, find-put t b.barrier_queue w _ found mine, act_on_zone_reply-HasTaken a r w),
              λ s n. find-put-other t s b.barrier_queue _ n mine,
            ),
    )

gives_up :
    (a : AssemblyId) (k : ℕ) (w : TurnBarrier) (v : TellBackWait)
    → w.zone_waits a ≡ some v
    → v.retries_remaining ≡ 0
    → act_on_zone_timeout a k w ≡ (record w { zone_timers = remove a w.zone_timers }, gave_up)
unfolding act_on_zone_timeout
gives_up a k w v waits empty = rw waits (ground arith)

-- A timeout of a zone that has no retry left, of whatever attempt: the turn's barrier afterwards
-- has the synthetic reply, made from the brain's context, for the zone, also where the zone had
-- replied before; the zone is pending no more and has no timer, the barrier's other zone is as
-- before, and no other turn's barrier changes.
pub exhausted_takes_synthetic :
    (env : Env) (a : AssemblyId) (t k : ℕ) (b : Brain) (w : TurnBarrier) (v : TellBackWait)
    → find_waiting t b.barrier_queue ≡ some w
    → w.zone_waits a ≡ some v
    → v.retries_remaining ≡ 0
    → let o = on_zone_timeout env a t k b in
      ((w' : TurnBarrier) × (find_waiting t o.brain.barrier_queue ≡ some w')
        × HasTaken a (synthetic_reply_for b.twin_car.context a) w w')
      × ((s : ℕ) → s ≢ t → find_waiting s o.brain.barrier_queue ≡ find_waiting s b.barrier_queue)
unfolding on_zone_timeout decided replied put act_on_zone_reply
exhausted_takes_synthetic env a t k b w v found waits none_left =
    let d = record w { zone_timers = remove a w.zone_timers } in
    let mine = find_waiting-turn_id t b.barrier_queue w found in
    let q = put_waiting t d b.barrier_queue in
    let r = synthetic_reply_for b.twin_car.context a in
    rw (on_zone_timeout, found, gives_up a k w v waits none_left)
      (
        (
          _,
          find-put t q d _ (find-put t b.barrier_queue w d found mine) mine,
          HasTaken-without_timer a r w _ (act_on_zone_reply-HasTaken a r d),
        ),
        λ s n. find-put-other t s q _ n mine ∙ find-put-other t s b.barrier_queue d n mine,
      )
