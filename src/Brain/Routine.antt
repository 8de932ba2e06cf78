-- ===== src/Brain/Routine.antt =====
-- Commits that start and stop no assembly leave the reorder buffer as it is:
-- crates/common/src/twin_runtime/controller/virtual_car_actor.rs.
use sdv_simulation.Prelude.{List, [], ◌∷◌, some, true, false, ◌≡◌, refl, ◌∙◌, inl, inr}
use sdv_simulation.Prelude.Result.{Result-cases}
use sdv_simulation.Fsm.Machineries.{DomainAction}
use sdv_simulation.Fsm.{StepResult}
use sdv_simulation.Turn.{HopRecord, ResolvedTurn, merged_actions, final_step}
use sdv_simulation.Turn
use sdv_simulation.Turn.Routine.{
  is_routine, is_operational, has_lifecycle, run_to_quiescence-TurnIsSmooth,
}
use sdv_simulation.Turn.Zone.{zone_turn}
use sdv_simulation.Brain.{Env, Brain, Outcome, and_then}
use sdv_simulation.Brain.Commit.{
  emit_records, dispatch, dispatch_all, take_step, apply_hops, report, apply_final,
  apply_committed_quiescence, commit_resolved_turn,
}
use sdv_simulation.Brain.Car.{commit-car}

-- The buffer is the same.
abbrev KeepsQueue : Brain → Outcome → Type 0
KeepsQueue b o = o.brain.barrier_queue ≡ b.barrier_queue

KeepsQueue-and_then :
    (b : Brain) (f : Brain → Outcome) (o : Outcome)
    → KeepsQueue b o
    → ((b' : Brain) → KeepsQueue b' (f b'))
    → KeepsQueue b (and_then f o)
KeepsQueue-and_then b f o g k = elim (Result-cases o.result) [
  | inl (u, e) ↦ rw e (k o.brain ∙ g)
  | inr (x, e) ↦ rw e g
]

pub emit_records-KeepsQueue :
    (env : Env) (hops : List HopRecord) (b : Brain) → KeepsQueue b (emit_records env hops b)
unfolding emit_records
emit_records-KeepsQueue env [] b = refl
emit_records-KeepsQueue env (h ∷ hops) b = emit_records-KeepsQueue env hops _

dispatch_all-KeepsQueue :
    (env : Env) (actions : List DomainAction) (b : Brain)
    → has_lifecycle actions ≡ false
    → KeepsQueue b (dispatch_all env actions b)
unfolding dispatch_all dispatch
dispatch_all-KeepsQueue env [] b h = refl
dispatch_all-KeepsQueue env (DomainAction.start_assemblies as' ∷ actions) b h = cc
dispatch_all-KeepsQueue env (DomainAction.stop_assemblies as' ∷ actions) b h = cc
dispatch_all-KeepsQueue env (action ∷ actions) b h =
    KeepsQueue-and_then b (dispatch_all env actions) (dispatch env action b) refl
      (λ b'. dispatch_all-KeepsQueue env actions b' h)

pub apply_final-KeepsQueue :
    (env : Env) (hops : List HopRecord) (last : StepResult) (b : Brain)
    → has_lifecycle (merged_actions hops) ≡ false
    → KeepsQueue b (apply_final env hops (some last) b)
unfolding apply_final
apply_final-KeepsQueue env hops last b h =
    KeepsQueue-and_then b
      (report env b.twin_car.current_state b.twin_car.context.headlamp.state
        last.modified_ctx.headlamp.state)
      (apply_hops env hops last b)
      (KeepsQueue-and_then b (take_step env hops last) (emit_records env hops b)
        (emit_records-KeepsQueue env hops b)
        (λ b'. dispatch_all-KeepsQueue env (merged_actions hops) _ h))
      (λ b'. refl)

-- What the commit of a routine event leaves in an operational brain.
pub record CommitIsSmooth (resolved : ResolvedTurn) (b : Brain) (after : Brain) : Type 0 where
  pub queue : after.barrier_queue ≡ b.barrier_queue
  pub operational : is_operational after.twin_car.current_state ≡ true
  pub context :
      after.twin_car.context
      ≡ (zone_turn b.twin_car.context resolved.ingress b.twin_car.current_state resolved.now
          resolved.zone_replies).ctx

pub commit-CommitIsSmooth :
    (env : Env) (resolved : ResolvedTurn) (b : Brain)
    → is_routine resolved.ingress ≡ true
    → is_operational b.twin_car.current_state ≡ true
    → CommitIsSmooth resolved b (commit_resolved_turn env resolved b).brain
unfolding commit_resolved_turn apply_committed_quiescence
commit-CommitIsSmooth env resolved b h k =
    let v =
      run_to_quiescence-TurnIsSmooth b.twin_car.current_state b.twin_car.context resolved.ingress
        resolved.now resolved.zone_replies h k in
    let hops = Turn.commit_resolved_turn b.twin_car.current_state b.twin_car.context resolved in
    let car = commit-car env resolved b v.last v.is_last in
    record {
      queue = rw v.is_last (apply_final-KeepsQueue env hops v.last b v.switches_nothing);
      operational = rw car v.operational;
      context = rw car v.context;
    }
