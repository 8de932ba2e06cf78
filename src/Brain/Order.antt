-- ===== src/Brain/Order.antt =====
-- Turn ids in the reorder buffer of
-- crates/common/src/twin_runtime/controller/virtual_car_actor.rs stay in order of arrival.
pub mod Handlers
use sdv_simulation.Prelude.{
  ℕ, zero, suc, ◌+◌, ◌≤◌, ◌<◌, Bool, true, false, List, [], ◌∷◌, ◌++◌, length, Option, none, some,
  ◌≡◌, ◌⊎◌, inl, inr, refl, sym, ap, ◌∙◌, arith, Bool-cases, Option-cases, if◌then◌else◌, ◌==◌,
  ==_iff,
}
use mathlib.Core.Option.{some-injective}
use sdv_simulation.Prelude.Word.{u64_max}
use sdv_simulation.Prelude.Result.{ok, err, Result-cases}
use sdv_simulation.Physics.{Instant}
use sdv_simulation.Modes.{AssemblyId}
use sdv_simulation.Fsm.Machineries.{FsmEvent}
use sdv_simulation.Twin.{
  CarSnapshot, DigitalTwinCarVocabulary, ZoneReply, ZoneMessage, ZoneSpontaneousEvent,
}
use sdv_simulation.Turn.{ResolvedTurn}
use sdv_simulation.Turn.Zone.{zone_message_for_event}
use sdv_simulation.Barrier.{
  TurnBarrier, TimeoutOutcome, retry, gave_up, act_on_zone_reply, act_on_zone_timeout,
  tell_attempt_matches, store_retry_timer,
}
use sdv_simulation.Barrier
use sdv_simulation.Barrier.Entry.{BarrierEntry, waiting, passthrough}
use sdv_simulation.Barrier.Entry
use sdv_simulation.Brain.{
  Env, Brain, Outcome, and_then, advance_id, push_back, tell_zone, synthetic_reply_for,
  tell_back_timer, tick, read_clock, StatusPort,
}
use sdv_simulation.Brain.Commit.{commit_resolved_turn}
use sdv_simulation.Brain.Handle.{
  find_waiting, put_waiting, put, pushed_turn, begin_fsm_turn, replied, retold, decided,
  on_zone_ready, on_zone_timeout, on_zone_spontaneous, drain, try_drain_barrier_queue, ingest,
  answered, handle,
}
use sdv_simulation.Brain.Drain.{popped, drain-nil, drain-stop, drain-step}
use sdv_simulation.Brain.Queue.{
  ids, Ascending, Ascending-append, Ascending-weaken, map-append, Grows, Grows-same, Grows-took_id,
  took_id, commit_resolved_turn-Grows,
}

pub find_waiting-turn_id :
    (t : ℕ) (q : List BarrierEntry) (w : TurnBarrier) → find_waiting t q ≡ some w → w.turn_id ≡ t
unfolding find_waiting
find_waiting-turn_id t [] w h = cc
find_waiting-turn_id t (waiting v ∷ es) w h = elim (Bool-cases (v.turn_id == t)) [
  | inl same ↦
      let mine = (rw same at h) in
      ap (λ (u : TurnBarrier). u.turn_id) (sym (some-injective v w mine))
      ∙ (==_iff v.turn_id t).0 same
  | inr other ↦ find_waiting-turn_id t es w (rw other at h)
]
find_waiting-turn_id t (passthrough v ∷ es) w h = elim (Bool-cases (v.turn_id == t)) [
  | inl same ↦ let mine = (rw same at h) in cc
  | inr other ↦ find_waiting-turn_id t es w (rw other at h)
]

put_waiting-ids :
    (t : ℕ) (w : TurnBarrier) (q : List BarrierEntry)
    → w.turn_id ≡ t
    → ids (put_waiting t w q) ≡ ids q
unfolding put_waiting
put_waiting-ids t w [] h = refl
put_waiting-ids t w (e ∷ es) h = elim (Bool-cases (Entry.turn_id e == t)) [
  | inl same ↦ rw same (ap (λ n. n ∷ ids es) (h ∙ sym ((==_iff (Entry.turn_id e) t).0 same)))
  | inr other ↦ rw other (ap (◌∷◌ (Entry.turn_id e)) (put_waiting-ids t w es h))
]

-- The ids of the queue ascend strictly from front to back, and the next id is above them all.
abbrev pub IsOrdered : Brain → Type 0
IsOrdered b = Ascending 0 (ids b.barrier_queue) b.next_turn_id

-- From the first brain to the second the counter does not fall, and order is kept while it does
-- not saturate.
pub record KeepsOrder (b b' : Brain) : Type 0 where
  pub rises :
      b.next_turn_id ≤ u64_max → (b.next_turn_id ≤ b'.next_turn_id) × (b'.next_turn_id ≤ u64_max)
  pub ordered : b.next_turn_id ≤ u64_max → IsOrdered b → b'.next_turn_id < u64_max → IsOrdered b'

pub KeepsOrder-trans : (a b c : Brain) → KeepsOrder a b → KeepsOrder b c → KeepsOrder a c
KeepsOrder-trans a b c g k = record {
  rises = λ s.
      let (up, below) = g.rises s in let (up', below') = k.rises below in (omega arith, below');
  ordered = λ s o h.
      let (up, below) = g.rises s in
      let (up', below') = k.rises below in k.ordered below (g.ordered s o (omega arith)) h;
}

pub KeepsOrder-and_then :
    (b : Brain) (f : Brain → Outcome) (o : Outcome)
    → KeepsOrder b o.brain
    → ((b' : Brain) → KeepsOrder b' (f b').brain)
    → KeepsOrder b (and_then f o).brain
KeepsOrder-and_then b f o g k = elim (Result-cases o.result) [
  | inl (u, e) ↦ rw e (KeepsOrder-trans b o.brain (f o.brain).brain g (k o.brain))
  | inr (x, e) ↦ rw e g
]

pub Grows-KeepsOrder : (b b' : Brain) → Grows b b' → KeepsOrder b b'
Grows-KeepsOrder b b' g = record {
  rises = g.rises;
  ordered = λ s o h.
      rw (g.queue, map-append Entry.turn_id b.barrier_queue g.grown)
        (Ascending-append 0 b.next_turn_id b'.next_turn_id _ _ o (g.ascends s h));
}

pub KeepsOrder-same :
    (b b' : Brain)
    → ids b'.barrier_queue ≡ ids b.barrier_queue
    → b'.next_turn_id ≡ b.next_turn_id
    → KeepsOrder b b'
KeepsOrder-same b b' q n = record {
  rises = λ s. (omega (arith, n), omega (arith, n));
  ordered = λ s o h. rw (q, n) o;
}

push-KeepsOrder :
    (b : Brain) (e : BarrierEntry)
    → Entry.turn_id e ≡ b.next_turn_id
    → KeepsOrder b (push_back e (took_id b))
push-KeepsOrder b e t = record {
  rises = λ s. (omega arith, omega arith);
  ordered = λ s o h.
      rw (map-append Entry.turn_id b.barrier_queue (e ∷ []), t)
        (Ascending-append 0 b.next_turn_id (advance_id b.next_turn_id) _ _ o
          (omega arith, omega arith));
}

pushed_turn-KeepsOrder :
    (env : Env) (event : FsmEvent) (now : Instant) (o : Option (AssemblyId × ZoneMessage))
    (b : Brain)
    → KeepsOrder b (pushed_turn env b.next_turn_id event now o (took_id b)).brain
unfolding pushed_turn tell_zone
pushed_turn-KeepsOrder env event now none b = push-KeepsOrder b _ refl
pushed_turn-KeepsOrder env event now (some (zone_id, message)) b =
    elim (Bool-cases (env.zone_accepts message b.next_turn_id 0)) [
      | inl e ↦ rw e (push-KeepsOrder b _ refl)
      | inr e ↦ rw e (Grows-KeepsOrder b _ (Grows-took_id b _ refl refl))
    ]

pub begin_fsm_turn-KeepsOrder :
    (env : Env) (event : FsmEvent) (now : Instant) (b : Brain)
    → KeepsOrder b (begin_fsm_turn env event now b).brain
unfolding begin_fsm_turn
begin_fsm_turn-KeepsOrder env event now b =
    pushed_turn-KeepsOrder env event now (zone_message_for_event event b.twin_car.current_state) b

pub put-KeepsOrder :
    (t : ℕ) (w : TurnBarrier) (b : Brain) → w.turn_id ≡ t → KeepsOrder b (put t w b)
unfolding put
put-KeepsOrder t w b h = KeepsOrder-same b (put t w b) (put_waiting-ids t w b.barrier_queue h) refl

pub replied-KeepsOrder :
    (t : ℕ) (a : AssemblyId) (r : ZoneReply) (w : TurnBarrier) (b : Brain)
    → w.turn_id ≡ t
    → KeepsOrder b (replied t a r w b).brain
unfolding replied act_on_zone_reply
replied-KeepsOrder t a r w b h = put-KeepsOrder t (act_on_zone_reply a r w).0 b h

pub on_zone_ready-KeepsOrder :
    (a : AssemblyId) (t k : ℕ) (r : ZoneReply) (b : Brain)
    → KeepsOrder b (on_zone_ready a t k r b).brain
unfolding on_zone_ready
on_zone_ready-KeepsOrder a t k r b = elim (Option-cases (find_waiting t b.barrier_queue)) [
  | inl e ↦ rw (on_zone_ready, e) (KeepsOrder-same b b refl refl)
  | inr (w, e) ↦
      let mine = find_waiting-turn_id t b.barrier_queue w e in
      elim (Bool-cases (tell_attempt_matches a k w)) [
        | inl m ↦ rw (on_zone_ready, e, m) (replied-KeepsOrder t a r w b mine)
        | inr m ↦ rw (on_zone_ready, e, m) (KeepsOrder-same b b refl refl)
      ]
]
