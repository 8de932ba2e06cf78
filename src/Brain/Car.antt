-- ===== src/Brain/Car.antt =====
-- What a commit leaves in the twin: `apply_committed_quiescence` of
-- crates/common/src/twin_runtime/controller/virtual_car_actor.rs.
use sdv_simulation.Prelude.{List, [], ◌∷◌, some, ◌≡◌, refl, ap, ◌∙◌, inl, inr, Bool-cases}
use sdv_simulation.Prelude.Result.{Result-cases}
use sdv_simulation.Physics.{Instant}
use sdv_simulation.Modes.{AssemblyId}
use sdv_simulation.Fsm.Machineries.{DomainAction}
use sdv_simulation.Fsm.{StepResult}
use sdv_simulation.Twin.{ZoneMessage, apply_step}
use sdv_simulation.Turn.{HopRecord, ResolvedTurn, final_step, merged_actions}
use sdv_simulation.Turn
use sdv_simulation.Brain.{
  Env, Brain, Outcome, and_then, tell_zone, tick, read_clock, become_on_message_for,
  become_off_message_for,
}
use sdv_simulation.Brain.Commit.{
  emit_records, begin_assembly_zone, begin_assembly_zones, dispatch, dispatch_all, apply_hops,
  report, apply_final, apply_committed_quiescence, commit_resolved_turn,
}
use sdv_simulation.Brain.Success.{emit_records-HasSucceeded}

-- The twin is the same.
abbrev KeepsCar : Brain → Outcome → Type 0
KeepsCar b o = o.brain.twin_car ≡ b.twin_car

KeepsCar-and_then :
    (b : Brain) (f : Brain → Outcome) (o : Outcome)
    → KeepsCar b o
    → ((b' : Brain) → KeepsCar b' (f b'))
    → KeepsCar b (and_then f o)
KeepsCar-and_then b f o g k = elim (Result-cases o.result) [
  | inl (u, e) ↦ rw e (k o.brain ∙ g)
  | inr (x, e) ↦ rw e g
]

pub emit_records-KeepsCar :
    (env : Env) (hops : List HopRecord) (b : Brain) → KeepsCar b (emit_records env hops b)
unfolding emit_records
emit_records-KeepsCar env [] b = refl
emit_records-KeepsCar env (h ∷ hops) b = emit_records-KeepsCar env hops _

begin_assembly_zone-KeepsCar :
    (env : Env) (message : AssemblyId → ZoneMessage) (now : Instant) (a : AssemblyId) (b : Brain)
    → KeepsCar b (begin_assembly_zone env message now a b)
unfolding begin_assembly_zone tell_zone
begin_assembly_zone-KeepsCar env message now a b =
    elim (Bool-cases (env.zone_accepts (message a) b.next_turn_id 0)) [
      | inl e ↦ rw e refl
      | inr e ↦ rw e refl
    ]

begin_assembly_zones-KeepsCar :
    (env : Env) (message : AssemblyId → ZoneMessage) (now : Instant) (as' : List AssemblyId)
    (b : Brain)
    → KeepsCar b (begin_assembly_zones env message now as' b)
unfolding begin_assembly_zones
begin_assembly_zones-KeepsCar env message now [] b = refl
begin_assembly_zones-KeepsCar env message now (a ∷ as') b =
    KeepsCar-and_then b (begin_assembly_zones env message now as')
      (begin_assembly_zone env message now a b) (begin_assembly_zone-KeepsCar env message now a b)
      (begin_assembly_zones-KeepsCar env message now as')

dispatch-KeepsCar :
    (env : Env) (action : DomainAction) (b : Brain) → KeepsCar b (dispatch env action b)
unfolding dispatch
dispatch-KeepsCar env (DomainAction.start_assemblies as') b =
    begin_assembly_zones-KeepsCar env become_on_message_for (read_clock env b) as' (tick b)
dispatch-KeepsCar env (DomainAction.stop_assemblies as') b =
    begin_assembly_zones-KeepsCar env become_off_message_for (read_clock env b) as' (tick b)
dispatch-KeepsCar env _ b = refl

dispatch_all-KeepsCar :
    (env : Env) (actions : List DomainAction) (b : Brain) → KeepsCar b (dispatch_all env actions b)
unfolding dispatch_all
dispatch_all-KeepsCar env [] b = refl
dispatch_all-KeepsCar env (action ∷ actions) b =
    KeepsCar-and_then b (dispatch_all env actions) (dispatch env action b)
      (dispatch-KeepsCar env action b) (dispatch_all-KeepsCar env actions)

apply_hops-car :
    (env : Env) (hops : List HopRecord) (last : StepResult) (b : Brain)
    → (apply_hops env hops last b).brain.twin_car
      ≡ apply_step last.next_state last.modified_ctx b.twin_car
apply_hops-car env hops last b = rw (emit_records-HasSucceeded env hops b) (
    dispatch_all-KeepsCar env (merged_actions hops) _
    ∙ ap (apply_step last.next_state last.modified_ctx) (emit_records-KeepsCar env hops b))

-- The twin ends in the mode and the context of the turn's last hop, whatever its actions come to.
pub commit-car :
    (env : Env) (resolved : ResolvedTurn) (b : Brain) (last : StepResult)
    → final_step (Turn.commit_resolved_turn b.twin_car.current_state b.twin_car.context resolved)
      ≡ some last
    → (commit_resolved_turn env resolved b).brain.twin_car
      ≡ apply_step last.next_state last.modified_ctx b.twin_car
unfolding commit_resolved_turn apply_committed_quiescence apply_final
commit-car env resolved b last ends =
    let hops = Turn.commit_resolved_turn b.twin_car.current_state b.twin_car.context resolved in
    rw ends (
      KeepsCar-and_then (apply_hops env hops last b).brain
        (report env b.twin_car.current_state b.twin_car.context.headlamp.state
          last.modified_ctx.headlamp.state)
        (apply_hops env hops last b) refl (λ b'. refl)
      ∙ apply_hops-car env hops last b)
