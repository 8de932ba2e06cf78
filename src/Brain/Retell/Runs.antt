-- ===== src/Brain/Retell/Runs.antt =====
-- That the brain fails on no message while its zones and its status port can be reached, timeouts
-- included: crates/common/src/twin_runtime/controller/virtual_car_actor.rs.
use sdv_simulation.Prelude.{
  ℕ, length, List, [], ◌∷◌, Option, none, some, ◌≡◌, ◌≢◌, inl, inr, refl, true, is_some,
  Option-cases,
}
use sdv_simulation.Prelude.Result.{ok}
use sdv_simulation.Modes.{AssemblyId}
use sdv_simulation.Twin.{CarSnapshot, DigitalTwinCarVocabulary, ZoneMessage}
use sdv_simulation.Barrier.{TurnBarrier, TimeoutOutcome, retry, gave_up, act_on_zone_timeout}
use sdv_simulation.Barrier
use sdv_simulation.Brain.{Env, Brain, Outcome, did, and_then, tell_zone, StatusPort}
use sdv_simulation.Brain.Handle.{
  find_waiting, put, replied, retold, decided, on_zone_timeout, try_drain_barrier_queue, ingest,
  answered, handle,
}
use sdv_simulation.Brain.Drain.{IsSettled, handle_stays_drained}
use sdv_simulation.Brain.Success.{
  IsReachable, HasSucceeded, HasSucceeded-and_then, HasDrained-IsSettled, drain-HasSucceeded,
  ingest-HasSucceeded,
}
use sdv_simulation.Brain.Retell.{AllRetellable}
use sdv_simulation.Brain.Retell.Handlers.{
  find_waiting-IsRetellable, retry_has_message, handle-Stays,
}

module _ (env : Env) (open_to : IsReachable env) where
  retold-HasSucceeded :
      (t : ℕ) (a : AssemblyId) (k : ℕ) (w : TurnBarrier) (o : Option ZoneMessage) (b : Brain)
      → is_some o ≡ true
      → HasSucceeded (retold env t a k w o b)
  unfolding retold tell_zone
  retold-HasSucceeded t a k w none b h = cc
  retold-HasSucceeded t a k w (some message) b h = rw (open_to message t k) refl

  decided-HasSucceeded :
      (t : ℕ) (a : AssemblyId) (b : Brain) (d : TurnBarrier × TimeoutOutcome)
      → ((n : ℕ) → d.1 ≡ retry n → is_some (Barrier.zone_message a d.0) ≡ true)
      → HasSucceeded (decided env t a b d)
  unfolding decided replied
  decided-HasSucceeded t a b (w, retry n) has =
      retold-HasSucceeded t a n w (Barrier.zone_message a w) (put t w b) (has n refl)
  decided-HasSucceeded t a b (w, gave_up) has = refl

  on_zone_timeout-HasSucceeded :
      (a : AssemblyId) (t k : ℕ) (b : Brain)
      → AllRetellable b
      → HasSucceeded (on_zone_timeout env a t k b)
  unfolding on_zone_timeout
  on_zone_timeout-HasSucceeded a t k b v = elim (Option-cases (find_waiting t b.barrier_queue)) [
    | inl e ↦ rw (on_zone_timeout, e) refl
    | inr (w, e) ↦
        let r = find_waiting-IsRetellable t b.barrier_queue w v e in
        rw (on_zone_timeout, e)
          (decided-HasSucceeded t a b (act_on_zone_timeout a k w)
            (λ n. retry_has_message a k n w r))
  ]

  any_ingest-HasSucceeded :
      (m : DigitalTwinCarVocabulary) (b : Brain) → AllRetellable b → HasSucceeded (ingest env m b)
  unfolding ingest
  any_ingest-HasSucceeded (DigitalTwinCarVocabulary.zone_tell_back_timeout a t k) b v =
      on_zone_timeout-HasSucceeded a t k b v
  any_ingest-HasSucceeded DigitalTwinCarVocabulary.get_status b v = refl
  any_ingest-HasSucceeded (DigitalTwinCarVocabulary.fsm e) b v =
      ingest-HasSucceeded env (DigitalTwinCarVocabulary.fsm e) b open_to refl
  any_ingest-HasSucceeded (DigitalTwinCarVocabulary.zone_ready a t k r) b v =
      ingest-HasSucceeded env (DigitalTwinCarVocabulary.zone_ready a t k r) b open_to refl
  any_ingest-HasSucceeded (DigitalTwinCarVocabulary.zone_spontaneous a e) b v =
      ingest-HasSucceeded env (DigitalTwinCarVocabulary.zone_spontaneous a e) b open_to refl

answered-HasSucceeded :
    (p : StatusPort) (snapshot : CarSnapshot) (b : Brain)
    → p ≢ StatusPort.broken
    → HasSucceeded (answered p snapshot b)
answered-HasSucceeded StatusPort.is_closed snapshot b whole = refl
answered-HasSucceeded StatusPort.listening snapshot b whole = refl
answered-HasSucceeded StatusPort.broken snapshot b whole = elim (whole refl) [ ]

handle-HasSucceeded :
    (env : Env) (m : DigitalTwinCarVocabulary) (b : Brain)
    → IsReachable env
    → env.status_port ≢ StatusPort.broken
    → AllRetellable b
    → HasSucceeded (handle env m b)
unfolding handle try_drain_barrier_queue
handle-HasSucceeded env DigitalTwinCarVocabulary.get_status b open_to whole v =
    answered-HasSucceeded env.status_port _ b whole
handle-HasSucceeded env m b open_to whole v =
    let b' = (ingest env m b).brain in
    HasSucceeded-and_then (try_drain_barrier_queue env) (ingest env m b)
      (any_ingest-HasSucceeded env open_to m b v)
      (drain-HasSucceeded env open_to (length b'.barrier_queue) b' b'.barrier_queue refl)

-- The messages one after another, up to the first error.
abbrev pub handle_all : Env → List DigitalTwinCarVocabulary → Brain → Outcome
handle_all env [] b = did [] b
handle_all env (m ∷ ms) b = and_then (handle_all env ms) (handle env m b)

run_on :
    (env : Env) (ms : List DigitalTwinCarVocabulary) (b : Brain)
    → IsReachable env
    → env.status_port ≢ StatusPort.broken
    → AllRetellable b
    → IsSettled b.barrier_queue
    → let o = handle_all env ms b in HasSucceeded o × IsSettled o.brain.barrier_queue
run_on env [] b open_to whole v s = (refl, s)
run_on env (m ∷ ms) b open_to whole v s =
    let o = handle env m b in
    let success = handle-HasSucceeded env m b open_to whole v in
    let (rest, end) =
      run_on env ms o.brain open_to whole (handle-Stays env m b v)
        (HasDrained-IsSettled o (handle_stays_drained env m b s) success) in
    (rw success rest, rw success end)

-- While every zone is reachable and a status request that is to be answered can be, a brain that
-- starts with an empty queue handles any sequence of messages without an error, tell-backs and
-- timeouts of any turn and attempt included: a retry that a timeout decides on always finds the
-- message to tell again. Afterwards the queue is empty or its head waits for a zone.
pub messages_succeed :
    (env : Env) (ms : List DigitalTwinCarVocabulary) (b : Brain)
    → IsReachable env
    → env.status_port ≢ StatusPort.broken
    → b.barrier_queue ≡ []
    → let o = handle_all env ms b in (o.result ≡ ok tt) × IsSettled o.brain.barrier_queue
messages_succeed env ms b open_to whole fresh =
    run_on env ms b open_to whole (rw fresh tt) (rw fresh tt)
