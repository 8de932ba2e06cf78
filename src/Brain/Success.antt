-- ===== src/Brain/Success.antt =====
-- That no handler of crates/common/src/twin_runtime/controller/virtual_car_actor.rs fails while
-- every zone is reachable.
use sdv_simulation.Prelude.{
  ℕ, zero, suc, Bool, true, false, List, [], ◌∷◌, length, some, ◌≡◌, inl, inr, refl, sym, ◌∙◌,
  Bool-cases, Option-cases,
}
use sdv_simulation.Prelude.Result.{ok}
use sdv_simulation.Physics.{Instant}
use sdv_simulation.Modes.{AssemblyId}
use sdv_simulation.Fsm.Machineries.{FsmEvent, DomainAction}
use sdv_simulation.Twin.{ZoneMessage, ZoneReply, ZoneSpontaneousEvent, DigitalTwinCarVocabulary}
use sdv_simulation.Fsm.{StepResult}
use sdv_simulation.Turn.{HopRecord, ResolvedTurn, merged_actions, commit_resolved_turn}
use sdv_simulation.Turn.Zone.{zone_message_for_event}
use sdv_simulation.Turn.Quiescence.{run_to_quiescence-Settles}
use sdv_simulation.Barrier.{tell_attempt_matches}
use sdv_simulation.Barrier.Entry.{BarrierEntry}
use sdv_simulation.Barrier.Entry
use sdv_simulation.Brain.{
  Env, Brain, Outcome, and_then, tell_zone, tick, read_clock, become_on_message_for,
  become_off_message_for,
}
use sdv_simulation.Brain.Commit.{
  emit_records, begin_assembly_zone, begin_assembly_zones, dispatch, dispatch_all, take_step,
  apply_hops, report, apply_final, apply_committed_quiescence,
}
use sdv_simulation.Brain.Commit
use sdv_simulation.Brain.Handle.{
  find_waiting, pushed_turn, begin_fsm_turn, replied, on_zone_ready, on_zone_spontaneous, drain,
  try_drain_barrier_queue, ingest, handle,
}
use sdv_simulation.Brain.Drain.{
  IsSettled, HasDrained, and_then-HasDrained, popped, drain-nil, drain-stop, drain-step,
  try_drain_barrier_queue-HasDrained,
}

-- Every tell reaches its zone.
abbrev pub IsReachable : Env → Type 0
IsReachable env = (m : ZoneMessage) (t k : ℕ) → env.zone_accepts m t k ≡ true

abbrev pub HasSucceeded : Outcome → Type 0
HasSucceeded o = o.result ≡ ok tt

pub HasSucceeded-and_then :
    (f : Brain → Outcome) (o : Outcome)
    → HasSucceeded o
    → HasSucceeded (f o.brain)
    → HasSucceeded (and_then f o)
HasSucceeded-and_then f o h k = rw h k

pub emit_records-HasSucceeded :
    (env : Env) (hops : List HopRecord) (b : Brain) → HasSucceeded (emit_records env hops b)
unfolding emit_records
emit_records-HasSucceeded env [] b = refl
emit_records-HasSucceeded env (h ∷ hops) b = emit_records-HasSucceeded env hops _

module _ (env : Env) (open_to : IsReachable env) where
  begin_assembly_zone-HasSucceeded :
      (message : AssemblyId → ZoneMessage) (now : Instant) (a : AssemblyId) (b : Brain)
      → HasSucceeded (begin_assembly_zone env message now a b)
  unfolding begin_assembly_zone tell_zone
  begin_assembly_zone-HasSucceeded message now a b = rw (open_to (message a) b.next_turn_id 0) refl

  begin_assembly_zones-HasSucceeded :
      (message : AssemblyId → ZoneMessage) (now : Instant) (as' : List AssemblyId) (b : Brain)
      → HasSucceeded (begin_assembly_zones env message now as' b)
  unfolding begin_assembly_zones
  begin_assembly_zones-HasSucceeded message now [] b = refl
  begin_assembly_zones-HasSucceeded message now (a ∷ as') b =
      HasSucceeded-and_then (begin_assembly_zones env message now as')
        (begin_assembly_zone env message now a b) (begin_assembly_zone-HasSucceeded message now a b)
        (begin_assembly_zones-HasSucceeded message now as' _)

  dispatch-HasSucceeded : (action : DomainAction) (b : Brain) → HasSucceeded (dispatch env action b)
  unfolding dispatch
  dispatch-HasSucceeded (DomainAction.start_assemblies as') b =
      begin_assembly_zones-HasSucceeded become_on_message_for (read_clock env b) as' (tick b)
  dispatch-HasSucceeded (DomainAction.stop_assemblies as') b =
      begin_assembly_zones-HasSucceeded become_off_message_for (read_clock env b) as' (tick b)
  dispatch-HasSucceeded _ b = refl

  dispatch_all-HasSucceeded :
      (actions : List DomainAction) (b : Brain) → HasSucceeded (dispatch_all env actions b)
  unfolding dispatch_all
  dispatch_all-HasSucceeded [] b = refl
  dispatch_all-HasSucceeded (action ∷ actions) b =
      HasSucceeded-and_then (dispatch_all env actions) (dispatch env action b)
        (dispatch-HasSucceeded action b) (dispatch_all-HasSucceeded actions _)

  apply_final-HasSucceeded :
      (hops : List HopRecord) (last : StepResult) (b : Brain)
      → HasSucceeded (apply_final env hops (some last) b)
  unfolding apply_final
  apply_final-HasSucceeded hops last b =
      HasSucceeded-and_then
        (report env b.twin_car.current_state b.twin_car.context.headlamp.state
          last.modified_ctx.headlamp.state)
        (apply_hops env hops last b)
        (HasSucceeded-and_then (take_step env hops last) (emit_records env hops b)
          (emit_records-HasSucceeded env hops b)
          (dispatch_all-HasSucceeded (merged_actions hops) _))
        refl

  pub commit-HasSucceeded :
      (resolved : ResolvedTurn) (b : Brain)
      → HasSucceeded (Commit.commit_resolved_turn env resolved b)
  unfolding Commit.commit_resolved_turn apply_committed_quiescence
  commit-HasSucceeded resolved b =
      let settles =
        run_to_quiescence-Settles b.twin_car.current_state b.twin_car.context resolved.ingress
          resolved.now resolved.zone_replies in
      rw settles.is_last (
        apply_final-HasSucceeded
          (commit_resolved_turn b.twin_car.current_state b.twin_car.context resolved) settles.last
          b)

  popped-HasSucceeded :
      (b : Brain) (e : BarrierEntry) (es : List BarrierEntry) → HasSucceeded (popped env e es b)
  unfolding popped
  popped-HasSucceeded b e es =
      commit-HasSucceeded (Entry.into_resolved_turn e) (record b { barrier_queue = es })

  pub drain-HasSucceeded :
      (n : ℕ) (b : Brain) (q : List BarrierEntry)
      → b.barrier_queue ≡ q
      → HasSucceeded (drain n env b)
  unfolding drain
  drain-HasSucceeded zero b q is = refl
  drain-HasSucceeded (suc n) b [] is = rw (drain-nil n env b is) refl
  drain-HasSucceeded (suc n) b (e ∷ es) is = elim (Bool-cases (Entry.is_complete e)) [
    | inl c ↦ rw (drain-step n env b e es is c) (
        HasSucceeded-and_then (drain n env) (popped env e es b) (popped-HasSucceeded b e es)
          (drain-HasSucceeded n _ _ refl))
    | inr c ↦ rw (drain-stop n env b e es is c) refl
  ]

  begin_fsm_turn-HasSucceeded :
      (event : FsmEvent) (now : Instant) (b : Brain) → HasSucceeded (begin_fsm_turn env event now b)
  unfolding begin_fsm_turn pushed_turn tell_zone
  begin_fsm_turn-HasSucceeded event now b =
      elim (Option-cases (zone_message_for_event event b.twin_car.current_state)) [
        | inl e ↦ rw e refl
        | inr ((a, m), e) ↦ rw (e, open_to m b.next_turn_id 0) refl
      ]

  on_zone_ready-HasSucceeded :
      (a : AssemblyId) (t k : ℕ) (r : ZoneReply) (b : Brain)
      → HasSucceeded (on_zone_ready a t k r b)
  unfolding on_zone_ready replied
  on_zone_ready-HasSucceeded a t k r b = elim (Option-cases (find_waiting t b.barrier_queue)) [
    | inl e ↦ rw (on_zone_ready, e) refl
    | inr (w, e) ↦ elim (Bool-cases (tell_attempt_matches a k w)) [
      | inl m ↦ rw (on_zone_ready, e, m) refl
      | inr m ↦ rw (on_zone_ready, e, m) refl
    ]
  ]

-- A message that opens a turn, brings a tell-back, or tells of the zone's own event.
abbrev is_progress : DigitalTwinCarVocabulary → Bool
is_progress (DigitalTwinCarVocabulary.fsm event) = true
is_progress (DigitalTwinCarVocabulary.zone_ready a t k r) = true
is_progress (DigitalTwinCarVocabulary.zone_spontaneous a e) = true
is_progress _ = false

pub ingest-HasSucceeded :
    (env : Env) (m : DigitalTwinCarVocabulary) (b : Brain)
    → IsReachable env
    → is_progress m ≡ true
    → HasSucceeded (ingest env m b)
unfolding ingest on_zone_spontaneous
ingest-HasSucceeded env (DigitalTwinCarVocabulary.fsm event) b open_to h =
    begin_fsm_turn-HasSucceeded env open_to event (read_clock env b) (tick b)
ingest-HasSucceeded env (DigitalTwinCarVocabulary.zone_ready a t k r) b open_to h =
    on_zone_ready-HasSucceeded env open_to a t k r b
ingest-HasSucceeded env
      (DigitalTwinCarVocabulary.zone_spontaneous a (ZoneSpontaneousEvent.headlamp d c r)) b open_to
      h =
    commit-HasSucceeded env open_to _ (tick b)
ingest-HasSucceeded env _ b open_to h = cc

pub HasDrained-IsSettled :
    (o : Outcome) → HasDrained o → HasSucceeded o → IsSettled o.brain.barrier_queue
HasDrained-IsSettled o (inl s) h = s
HasDrained-IsSettled o (inr (x, e)) h = let clash = (sym e ∙ h) in cc

-- While every zone is reachable, an FSM event, a tell-back and a zone's own event are handled
-- without an error, whatever the brain's state, and leave nothing to commit: the queue is empty,
-- or its head still waits for a zone.
handle_succeeds :
    (env : Env) (m : DigitalTwinCarVocabulary) (b : Brain)
    → IsReachable env
    → is_progress m ≡ true
    → let o = handle env m b in (o.result ≡ ok tt) × IsSettled o.brain.barrier_queue
unfolding handle try_drain_barrier_queue
handle_succeeds env DigitalTwinCarVocabulary.get_status b open_to h = cc
handle_succeeds env m b open_to h =
    let b' = (ingest env m b).brain in
    let drained =
      drain-HasSucceeded env open_to (length b'.barrier_queue) b' b'.barrier_queue refl in
    let success =
      HasSucceeded-and_then (try_drain_barrier_queue env) (ingest env m b)
        (ingest-HasSucceeded env m b open_to h) drained in
    let finished =
      and_then-HasDrained (try_drain_barrier_queue env) (ingest env m b)
        (try_drain_barrier_queue-HasDrained env b') in
    (
      success,
      HasDrained-IsSettled (and_then (try_drain_barrier_queue env) (ingest env m b)) finished
          success,
    )
