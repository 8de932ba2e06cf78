-- ===== src/Brain/Drain.antt =====
-- Where the drain loop of crates/common/src/twin_runtime/controller/virtual_car_actor.rs ends.
use sdv_simulation.Prelude.{
  ℕ, ◌-◌, zero, suc, ◌≤◌, true, List, [], ◌∷◌, ◌++◌, length, ◌≡◌, ◌≢◌, ◌⊎◌, inl, inr, refl, ap,
  arith, All, Bool-cases, if◌then◌else◌,
}
use sdv_simulation.Prelude.Result.{err, Result-cases}
use sdv_simulation.Twin.{CarSnapshot, DigitalTwinCarVocabulary}
use sdv_simulation.Barrier.Entry.{BarrierEntry}
use sdv_simulation.Barrier.Entry
use sdv_simulation.Brain.{
  Env, Brain, Outcome, ActorProcessingErr, status_reply, StatusPort, and_then, did,
}
use sdv_simulation.Brain.Commit.{commit_resolved_turn}
use sdv_simulation.Brain.Handle.{drain, try_drain_barrier_queue, answered, ingest, handle}
use sdv_simulation.Brain.Queue.{IsIncomplete, commit_resolved_turn-Grows}

-- How many complete entries stand at the front.
abbrev pub lead : List BarrierEntry → ℕ
lead [] = 0
lead (e ∷ es) = let rest = lead es in if Entry.is_complete e then suc rest else 0

lead-append : (q new : List BarrierEntry) → All IsIncomplete new → lead (q ++ new) ≡ lead q
lead-append [] [] h = refl
lead-append [] (e ∷ es) (h, hs) = rw h refl
lead-append (e ∷ es) new h =
    ap (λ n. if Entry.is_complete e then suc n else 0) (lead-append es new h)

lead-le-length : (q : List BarrierEntry) → lead q ≤ length q
lead-le-length [] = omega arith
lead-le-length (e ∷ es) = let shorter = lead-le-length es in ground arith

-- Nothing is left to commit: the queue is empty, or its head still waits for a zone.
abbrev pub IsSettled : List BarrierEntry → Type 0
IsSettled [] = Unit
IsSettled (e ∷ es) = IsIncomplete e

lead-zero : (q : List BarrierEntry) → lead q ≤ 0 → IsSettled q
lead-zero [] h = tt
lead-zero (e ∷ es) h = ground arith

-- Settled, or stopped by an error.
abbrev pub HasDrained : Outcome → Type 0
HasDrained o = IsSettled o.brain.barrier_queue ⊎ ((e : ActorProcessingErr) × (o.result ≡ err e))

pub and_then-HasDrained :
    (f : Brain → Outcome) (o : Outcome) → HasDrained (f o.brain) → HasDrained (and_then f o)
and_then-HasDrained f o h = elim (Result-cases o.result) [
  | inl (u, e) ↦ rw e h
  | inr (x, e) ↦ rw e (inr (x, refl))
]

unfoldable pub popped : Env → BarrierEntry → List BarrierEntry → Brain → Outcome
unfolding commit_resolved_turn
popped env e es b =
    commit_resolved_turn env (Entry.into_resolved_turn e) (record b { barrier_queue = es })

pub drain-nil :
    (n : ℕ) (env : Env) (b : Brain) → b.barrier_queue ≡ [] → drain (suc n) env b ≡ did [] b
unfolding drain
drain-nil n env b is = rw is refl

pub drain-stop :
    (n : ℕ) (env : Env) (b : Brain) (e : BarrierEntry) (es : List BarrierEntry)
    → b.barrier_queue ≡ e ∷ es
    → IsIncomplete e
    → drain (suc n) env b ≡ did [] b
unfolding drain
drain-stop n env b e es is c = rw (is, c) refl

pub drain-step :
    (n : ℕ) (env : Env) (b : Brain) (e : BarrierEntry) (es : List BarrierEntry)
    → b.barrier_queue ≡ e ∷ es
    → Entry.is_complete e ≡ true
    → drain (suc n) env b ≡ and_then (drain n env) (popped env e es b)
unfolding drain popped
drain-step n env b e es is c = rw (is, c) refl

popped-lead :
    (env : Env) (e : BarrierEntry) (es : List BarrierEntry) (b : Brain)
    → lead (popped env e es b).brain.barrier_queue ≡ lead es
unfolding popped
popped-lead env e es b =
    let g =
      commit_resolved_turn-Grows env (Entry.into_resolved_turn e)
        (record b { barrier_queue = es }) in
    rw g.queue (lead-append es g.grown g.incomplete)

drain-HasDrained :
    (n : ℕ) (env : Env) (b : Brain) (q : List BarrierEntry)
    → b.barrier_queue ≡ q
    → lead q ≤ n
    → HasDrained (drain n env b)
unfolding drain popped
drain-HasDrained zero env b q is h = inl (rw is (lead-zero q h))
drain-HasDrained (suc n) env b [] is h = rw is (inl tt)
drain-HasDrained (suc n) env b (e ∷ es) is h = elim (Bool-cases (Entry.is_complete e)) [
  | inl c ↦
      rw (is, c)
        (and_then-HasDrained (drain n env) (popped env e es b) (
          drain-HasDrained n env (popped env e es b).brain _ refl
            (rw (popped-lead env e es b) (let front = rw c at h in omega (arith, front)))))
  | inr c ↦ rw (is, c) (inl c)
]

-- The loop's bound, the queue's length when it starts, is enough: unless an error stops it, the
-- drain ends with an empty queue or one whose head still waits for a zone, though commits push new
-- entries while it runs.
pub try_drain_barrier_queue-HasDrained :
    (env : Env) (b : Brain) → HasDrained (try_drain_barrier_queue env b)
unfolding try_drain_barrier_queue
try_drain_barrier_queue-HasDrained env b =
    drain-HasDrained (length b.barrier_queue) env b b.barrier_queue refl
      (lead-le-length b.barrier_queue)

answered-HasDrained :
    (p : StatusPort) (snapshot : CarSnapshot) (b : Brain)
    → IsSettled b.barrier_queue
    → HasDrained (answered p snapshot b)
answered-HasDrained StatusPort.is_closed snapshot b s = inl s
answered-HasDrained StatusPort.listening snapshot b s = inl s
answered-HasDrained StatusPort.broken snapshot b s = inr (status_reply, refl)

-- After any message but a status request, and whatever the queue held before it, the handler has
-- failed or the brain has nothing left to commit: the queue is empty, or its head still waits for a
-- zone.
pub handle-HasDrained :
    (env : Env) (m : DigitalTwinCarVocabulary) (b : Brain)
    → m ≢ DigitalTwinCarVocabulary.get_status
    → HasDrained (handle env m b)
unfolding handle
handle-HasDrained env DigitalTwinCarVocabulary.get_status b other = absurd (other refl)
handle-HasDrained env m b other =
    and_then-HasDrained (try_drain_barrier_queue env) (ingest env m b)
      (try_drain_barrier_queue-HasDrained env (ingest env m b).brain)

-- A status request leaves a drained queue drained, and so does every other message.
pub handle_stays_drained :
    (env : Env) (m : DigitalTwinCarVocabulary) (b : Brain)
    → IsSettled b.barrier_queue
    → HasDrained (handle env m b)
unfolding handle
handle_stays_drained env DigitalTwinCarVocabulary.get_status b s =
    answered-HasDrained env.status_port
      (record { car = b.twin_car; as_of_seq = b.next_record_seq - 1 }) b s
handle_stays_drained env m b s = handle-HasDrained env m b (λ h. cc)
