-- ===== src/Brain/Retell/Handlers.antt =====
-- That no message fails while every zone is reachable, timeouts included, and that this lasts over
-- any run: crates/common/src/twin_runtime/controller/virtual_car_actor.rs.
use sdv_simulation.Prelude.{
  ℕ, zero, suc, List, [], ◌∷◌, length, Option, none, some, ◌≡◌, inl, inr, refl, sym, All, true,
  is_some, Bool-cases, Option-cases, ◌==◌, ◌&&◌, ltb,
}
use sdv_simulation.Modes.{AssemblyId, assembly_eq}
use sdv_simulation.Physics.{Instant}
use sdv_simulation.Fsm.Machineries.{FsmEvent}
use sdv_simulation.Twin.{
  CarSnapshot, DigitalTwinCarVocabulary, ZoneMessage, ZoneReply, ZoneSpontaneousEvent,
}
use sdv_simulation.Turn.Zone.{zone_message_for_event}
use sdv_simulation.Barrier.{
  TurnBarrier, TimeoutOutcome, retry, gave_up, act_on_zone_reply, act_on_zone_timeout, new,
  tell_attempt_matches, store_retry_timer, add_pending_zone, after_timeout,
}
use sdv_simulation.Barrier
use sdv_simulation.Barrier.Wait.{TellBackWait}
use sdv_simulation.Barrier.Wait
use sdv_simulation.Barrier.Entry.{BarrierEntry, waiting, passthrough}
use sdv_simulation.Barrier.Entry
use sdv_simulation.Brain.{
  Env, Brain, tell_zone, synthetic_reply_for, tell_back_timer, tick, read_clock, StatusPort,
}
use sdv_simulation.Brain.Handle.{
  find_waiting, put_waiting, put, pushed_turn, begin_fsm_turn, replied, retold, decided,
  on_zone_ready, on_zone_timeout, on_zone_spontaneous, drain, try_drain_barrier_queue, ingest,
  answered, handle,
}
use sdv_simulation.Brain.Drain.{popped, drain-nil, drain-stop, drain-step}
use sdv_simulation.Brain.Retell.{
  IsRetellable, EntryRetellable, Stays, Stays-and_then, All-snoc, commit-Stays,
  add_pending_zone-IsRetellable, new-IsRetellable,
}

pub find_waiting-IsRetellable :
    (t : ℕ) (q : List BarrierEntry) (w : TurnBarrier)
    → All EntryRetellable q
    → find_waiting t q ≡ some w
    → IsRetellable w
unfolding find_waiting
find_waiting-IsRetellable t [] w v h = cc
find_waiting-IsRetellable t (waiting x ∷ es) w (u, v) h = elim (Bool-cases (x.turn_id == t)) [
  | inl same ↦ let mine = (rw same at h) in let it : x ≡ w = cc in rw it at u
  | inr other ↦ find_waiting-IsRetellable t es w v (rw other at h)
]
find_waiting-IsRetellable t (passthrough x ∷ es) w (u, v) h = elim (Bool-cases (x.turn_id == t)) [
  | inl same ↦ let mine = (rw same at h) in cc
  | inr other ↦ find_waiting-IsRetellable t es w v (rw other at h)
]

put_waiting-All :
    (t : ℕ) (w : TurnBarrier) (q : List BarrierEntry)
    → IsRetellable w
    → All EntryRetellable q
    → All EntryRetellable (put_waiting t w q)
unfolding put_waiting
put_waiting-All t w [] r v = tt
put_waiting-All t w (e ∷ es) r (u, v) = elim (Bool-cases (Entry.turn_id e == t)) [
  | inl same ↦ rw same (r, v)
  | inr other ↦ rw other (u, put_waiting-All t w es r v)
]

put-Stays : (t : ℕ) (w : TurnBarrier) (b : Brain) → IsRetellable w → Stays b (put t w b)
unfolding put
put-Stays t w b r v = put_waiting-All t w b.barrier_queue r v

assembly_eq_sound : (a c : AssemblyId) → assembly_eq a c ≡ true → a ≡ c
assembly_eq_sound AssemblyId.headlamp AssemblyId.headlamp h = refl
assembly_eq_sound AssemblyId.wiper AssemblyId.wiper h = refl
assembly_eq_sound _ _ h = cc

after_timeout-IsRetellable :
    (a : AssemblyId) (k : ℕ) (w : TurnBarrier) (o : Option TellBackWait)
    → (is_some o ≡ true → is_some (w.zone_messages a) ≡ true)
    → IsRetellable w
    → IsRetellable (after_timeout a k w o).0
after_timeout-IsRetellable a k w none has r = r
after_timeout-IsRetellable a k w (some x) has r =
    elim (Bool-cases (x.tell_attempt == k && ltb 0 x.retries_remaining)) [
      | inl e ↦ rw e (λ c h. elim (Bool-cases (assembly_eq a c)) [
        | inl same ↦ let it : a ≡ c = assembly_eq_sound a c same in rw (sym it) (has refl)
        | inr other ↦ r c (rw other at h)
      ])
      | inr e ↦ rw e r
    ]

act_on_zone_timeout-IsRetellable :
    (a : AssemblyId) (k : ℕ) (w : TurnBarrier)
    → IsRetellable w
    → IsRetellable (act_on_zone_timeout a k w).0
unfolding act_on_zone_timeout
act_on_zone_timeout-IsRetellable a k w r = after_timeout-IsRetellable a k _ (w.zone_waits a) (r a) r

after_timeout_has_message :
    (a : AssemblyId) (k n : ℕ) (w : TurnBarrier) (o : Option TellBackWait)
    → (is_some o ≡ true → is_some (w.zone_messages a) ≡ true)
    → (after_timeout a k w o).1 ≡ retry n
    → is_some (Barrier.zone_message a (after_timeout a k w o).0) ≡ true
after_timeout_has_message a k n w none has h = cc
after_timeout_has_message a k n w (some x) has h =
    elim (Bool-cases (x.tell_attempt == k && ltb 0 x.retries_remaining)) [
      | inl e ↦ rw e (has refl)
      | inr e ↦ let clash = (rw e at h) in cc
    ]

-- A retry is decided only for a zone with a wait, so its message is there.
pub retry_has_message :
    (a : AssemblyId) (k n : ℕ) (w : TurnBarrier)
    → IsRetellable w
    → (act_on_zone_timeout a k w).1 ≡ retry n
    → is_some (Barrier.zone_message a (act_on_zone_timeout a k w).0) ≡ true
unfolding act_on_zone_timeout
retry_has_message a k n w r h = after_timeout_has_message a k n _ (w.zone_waits a) (r a) h

act_on_zone_reply-IsRetellable :
    (a : AssemblyId) (r : ZoneReply) (w : TurnBarrier)
    → IsRetellable w
    → IsRetellable (act_on_zone_reply a r w).0
unfolding act_on_zone_reply
act_on_zone_reply-IsRetellable a r w v = v

replied-Stays :
    (t : ℕ) (a : AssemblyId) (r : ZoneReply) (w : TurnBarrier) (b : Brain)
    → IsRetellable w
    → Stays b (replied t a r w b).brain
unfolding replied
replied-Stays t a r w b v =
    put-Stays t (act_on_zone_reply a r w).0 b (act_on_zone_reply-IsRetellable a r w v)

retold-Stays :
    (env : Env) (t : ℕ) (a : AssemblyId) (k : ℕ) (w : TurnBarrier) (o : Option ZoneMessage)
    (b : Brain)
    → IsRetellable w
    → Stays b (retold env t a k w o b).brain
unfolding retold tell_zone
retold-Stays env t a k w none b r v = v
retold-Stays env t a k w (some message) b r v = elim (Bool-cases (env.zone_accepts message t k)) [
  | inl e ↦ rw e (put-Stays t (store_retry_timer a (tell_back_timer a t k) w) b r v)
  | inr e ↦ rw e v
]

decided-Stays :
    (env : Env) (t : ℕ) (a : AssemblyId) (b : Brain) (d : TurnBarrier × TimeoutOutcome)
    → IsRetellable d.0
    → Stays b (decided env t a b d).brain
unfolding decided
decided-Stays env t a b (w, retry k) r v =
    retold-Stays env t a k w (Barrier.zone_message a w) (put t w b) r (put-Stays t w b r v)
decided-Stays env t a b (w, gave_up) r v =
    replied-Stays t a (synthetic_reply_for b.twin_car.context a) w (put t w b) r
      (put-Stays t w b r v)

on_zone_ready-Stays :
    (a : AssemblyId) (t k : ℕ) (r : ZoneReply) (b : Brain) → Stays b (on_zone_ready a t k r b).brain
unfolding on_zone_ready
on_zone_ready-Stays a t k r b v = elim (Option-cases (find_waiting t b.barrier_queue)) [
  | inl e ↦ rw (on_zone_ready, e) v
  | inr (w, e) ↦ elim (Bool-cases (tell_attempt_matches a k w)) [
    | inl m ↦
        rw (on_zone_ready, e, m)
          (replied-Stays t a r w b (find_waiting-IsRetellable t b.barrier_queue w v e) v)
    | inr m ↦ rw (on_zone_ready, e, m) v
  ]
]

on_zone_timeout-Stays :
    (env : Env) (a : AssemblyId) (t k : ℕ) (b : Brain) → Stays b (on_zone_timeout env a t k b).brain
unfolding on_zone_timeout
on_zone_timeout-Stays env a t k b v = elim (Option-cases (find_waiting t b.barrier_queue)) [
  | inl e ↦ rw (on_zone_timeout, e) v
  | inr (w, e) ↦
      let r = find_waiting-IsRetellable t b.barrier_queue w v e in
      rw (on_zone_timeout, e)
        (decided-Stays env t a b (act_on_zone_timeout a k w)
          (act_on_zone_timeout-IsRetellable a k w r) v)
]

begin_fsm_turn-Stays :
    (env : Env) (event : FsmEvent) (now : Instant) (b : Brain)
    → Stays b (begin_fsm_turn env event now b).brain
unfolding begin_fsm_turn pushed_turn tell_zone
begin_fsm_turn-Stays env event now b v =
    elim (Option-cases (zone_message_for_event event b.twin_car.current_state)) [
      | inl e ↦ rw e (All-snoc b.barrier_queue _ v tt)
      | inr ((a, m), e) ↦ elim (Bool-cases (env.zone_accepts m b.next_turn_id 0)) [
        | inl t ↦
            rw (e, t)
              (All-snoc b.barrier_queue _ v (
                add_pending_zone-IsRetellable a m (Wait.new b.next_turn_id)
                  (tell_back_timer a b.next_turn_id 0) (new b.next_turn_id event now)
                  (new-IsRetellable b.next_turn_id event now)))
        | inr t ↦ rw (e, t) v
      ]
    ]

ingest-Stays :
    (env : Env) (m : DigitalTwinCarVocabulary) (b : Brain) → Stays b (ingest env m b).brain
unfolding ingest on_zone_spontaneous
ingest-Stays env (DigitalTwinCarVocabulary.fsm e) b v =
    begin_fsm_turn-Stays env e (read_clock env b) (tick b) v
ingest-Stays env (DigitalTwinCarVocabulary.zone_ready a t k r) b v = on_zone_ready-Stays a t k r b v
ingest-Stays env (DigitalTwinCarVocabulary.zone_tell_back_timeout a t k) b v =
    on_zone_timeout-Stays env a t k b v
ingest-Stays env (DigitalTwinCarVocabulary.zone_spontaneous a (ZoneSpontaneousEvent.headlamp d c r))
      b v =
    commit-Stays env _ (tick b) v
ingest-Stays env DigitalTwinCarVocabulary.get_status b v = v

drain-Stays :
    (n : ℕ) (env : Env) (b : Brain) (q : List BarrierEntry)
    → b.barrier_queue ≡ q
    → Stays b (drain n env b).brain
unfolding drain popped
drain-Stays zero env b q is v = v
drain-Stays (suc n) env b [] is v = rw (drain-nil n env b is) v
drain-Stays (suc n) env b (e ∷ es) is v = elim (Bool-cases (Entry.is_complete e)) [
  | inl c ↦
      let b' = record b { barrier_queue = es } in
      let (mine, rest) = (rw is at v) in
      rw (drain-step n env b e es is c) (
        Stays-and_then b' (drain n env) (popped env e es b)
          (commit-Stays env (Entry.into_resolved_turn e) b')
          (λ b''. drain-Stays n env b'' b''.barrier_queue refl) rest)
  | inr c ↦ rw (drain-stop n env b e es is c) v
]

answered-Stays :
    (p : StatusPort) (snapshot : CarSnapshot) (b : Brain) → Stays b (answered p snapshot b).brain
answered-Stays StatusPort.is_closed snapshot b v = v
answered-Stays StatusPort.listening snapshot b v = v
answered-Stays StatusPort.broken snapshot b v = v

pub handle-Stays :
    (env : Env) (m : DigitalTwinCarVocabulary) (b : Brain) → Stays b (handle env m b).brain
unfolding handle try_drain_barrier_queue
handle-Stays env DigitalTwinCarVocabulary.get_status b v = answered-Stays env.status_port _ b v
handle-Stays env m b v =
    Stays-and_then b (try_drain_barrier_queue env) (ingest env m b) (ingest-Stays env m b)
      (λ b'. drain-Stays (length b'.barrier_queue) env b' b'.barrier_queue refl) v
