-- ===== src/Brain/Retell.antt =====
-- Every wait of a barrier in the reorder buffer has the message that a retry needs:
-- crates/common/src/twin_runtime/controller/virtual_car_actor.rs and turn_barrier.rs.
pub mod Handlers
pub mod Runs
use sdv_simulation.Prelude.{
  ℕ, suc, ◌≤◌, ◌<◌, false, List, [], ◌∷◌, ◌++◌, map, Option, none, some, ◌≡◌, refl, sym, ap, ◌∙◌,
  arith, All, true, is_some, Bool-cases, inl, inr, append-nil, append_assoc,
}
use sdv_simulation.Prelude.Word.{u64_max}
use sdv_simulation.Prelude.Result.{Result-cases}
use sdv_simulation.Physics.{Instant}
use sdv_simulation.Modes.{AssemblyId, assembly_eq}
use sdv_simulation.Fsm.Machineries.{FsmEvent, DomainAction}
use sdv_simulation.Fsm.{StepResult}
use sdv_simulation.Twin.{ZoneMessage, apply_step}
use sdv_simulation.Turn.{HopRecord, ResolvedTurn, final_step, merged_actions}
use sdv_simulation.Turn
use sdv_simulation.Barrier.{TurnBarrier, TellBackTimer, new, add_pending_zone}
use sdv_simulation.Barrier.Wait.{TellBackWait}
use sdv_simulation.Barrier.Wait
use sdv_simulation.Barrier.Entry.{BarrierEntry, waiting, passthrough}
use sdv_simulation.Barrier.Entry
use sdv_simulation.Brain.{
  Env, Brain, Outcome, and_then, tell_zone, advance_id, push_back, become_on_message_for,
  become_off_message_for, read_clock, tick, tell_back_timer,
}
use sdv_simulation.Brain.Commit.{
  emit_records, begin_assembly_zone, begin_assembly_zones, dispatch, dispatch_all, take_step,
  apply_hops, report, apply_final, apply_committed_quiescence, commit_resolved_turn,
}

-- A zone that the barrier has a wait for can be told again.
abbrev pub IsRetellable : TurnBarrier → Type 0
IsRetellable w =
    (a : AssemblyId) → is_some (w.zone_waits a) ≡ true → is_some (w.zone_messages a) ≡ true

abbrev pub EntryRetellable : BarrierEntry → Type 0
EntryRetellable (waiting w) = IsRetellable w
EntryRetellable (passthrough p) = Unit {0}

abbrev pub AllRetellable : Brain → Type 0
AllRetellable b = All EntryRetellable b.barrier_queue

abbrev pub Stays : Brain → Brain → Type 0
Stays b b' = AllRetellable b → AllRetellable b'

pub Stays-and_then :
    (b : Brain) (f : Brain → Outcome) (o : Outcome)
    → Stays b o.brain
    → ((b' : Brain) → Stays b' (f b').brain)
    → Stays b (and_then f o).brain
Stays-and_then b f o g k v = elim (Result-cases o.result) [
  | inl (u, e) ↦ rw e (k o.brain (g v))
  | inr (x, e) ↦ rw e (g v)
]

All-snoc :
    (q : List BarrierEntry) (e : BarrierEntry)
    → All EntryRetellable q
    → EntryRetellable e
    → All EntryRetellable (q ++ e ∷ [])
All-snoc [] e v w = (w, tt)
All-snoc (x ∷ q) e (u, v) w = (u, All-snoc q e v w)

push-Stays : (e : BarrierEntry) (b : Brain) → EntryRetellable e → Stays b (push_back e b)
push-Stays e b w v = All-snoc b.barrier_queue e v w

add_pending_zone-IsRetellable :
    (c : AssemblyId) (m : ZoneMessage) (w : TellBackWait) (t : TellBackTimer) (b : TurnBarrier)
    → IsRetellable b
    → IsRetellable (add_pending_zone c m w t b)
add_pending_zone-IsRetellable c m w t b v a h = elim (Bool-cases (assembly_eq c a)) [
  | inl e ↦ rw e refl
  | inr e ↦ rw e (v a (rw e at h))
]

new-IsRetellable : (t : ℕ) (e : FsmEvent) (now : Instant) → IsRetellable (new t e now)
new-IsRetellable t e now a h = cc

emit_records-Stays :
    (env : Env) (hops : List HopRecord) (b : Brain) → Stays b (emit_records env hops b).brain
unfolding emit_records
emit_records-Stays env [] b v = v
emit_records-Stays env (h ∷ hops) b v = emit_records-Stays env hops _ v

begin_assembly_zone-Stays :
    (env : Env) (message : AssemblyId → ZoneMessage) (now : Instant) (a : AssemblyId) (b : Brain)
    → Stays b (begin_assembly_zone env message now a b).brain
unfolding begin_assembly_zone tell_zone
begin_assembly_zone-Stays env message now a b v =
    elim (Bool-cases (env.zone_accepts (message a) b.next_turn_id 0)) [
      | inl e ↦ rw e (
          All-snoc b.barrier_queue _ v (
            add_pending_zone-IsRetellable a (message a) (Wait.new b.next_turn_id)
              (tell_back_timer a b.next_turn_id 0)
              (new b.next_turn_id (FsmEvent.assembly_zone_ready a) now)
              (new-IsRetellable b.next_turn_id (FsmEvent.assembly_zone_ready a) now)))
      | inr e ↦ rw e v
    ]

begin_assembly_zones-Stays :
    (env : Env) (message : AssemblyId → ZoneMessage) (now : Instant) (as' : List AssemblyId)
    (b : Brain)
    → Stays b (begin_assembly_zones env message now as' b).brain
unfolding begin_assembly_zones
begin_assembly_zones-Stays env message now [] b v = v
begin_assembly_zones-Stays env message now (a ∷ as') b v =
    Stays-and_then b (begin_assembly_zones env message now as')
      (begin_assembly_zone env message now a b) (begin_assembly_zone-Stays env message now a b)
      (begin_assembly_zones-Stays env message now as') v

dispatch-Stays :
    (env : Env) (action : DomainAction) (b : Brain) → Stays b (dispatch env action b).brain
unfolding dispatch
dispatch-Stays env (DomainAction.start_assemblies as') b v =
    begin_assembly_zones-Stays env become_on_message_for (read_clock env b) as' (tick b) v
dispatch-Stays env (DomainAction.stop_assemblies as') b v =
    begin_assembly_zones-Stays env become_off_message_for (read_clock env b) as' (tick b) v
dispatch-Stays env _ b v = v

dispatch_all-Stays :
    (env : Env) (actions : List DomainAction) (b : Brain)
    → Stays b (dispatch_all env actions b).brain
unfolding dispatch_all
dispatch_all-Stays env [] b v = v
dispatch_all-Stays env (action ∷ actions) b v =
    Stays-and_then b (dispatch_all env actions) (dispatch env action b)
      (dispatch-Stays env action b) (dispatch_all-Stays env actions) v

take_step-Stays :
    (env : Env) (hops : List HopRecord) (last : StepResult) (b : Brain)
    → Stays b (take_step env hops last b).brain
take_step-Stays env hops last b v = dispatch_all-Stays env (merged_actions hops) _ v

apply_final-Stays :
    (env : Env) (hops : List HopRecord) (o : Option StepResult) (b : Brain)
    → Stays b (apply_final env hops o b).brain
unfolding apply_final
apply_final-Stays env hops none b v = v
apply_final-Stays env hops (some last) b v =
    Stays-and_then b
      (report env b.twin_car.current_state b.twin_car.context.headlamp.state
        last.modified_ctx.headlamp.state)
      (apply_hops env hops last b)
      (Stays-and_then b (take_step env hops last) (emit_records env hops b)
        (emit_records-Stays env hops b) (take_step-Stays env hops last))
      (λ b' v. v) v

pub commit-Stays :
    (env : Env) (resolved : ResolvedTurn) (b : Brain)
    → Stays b (commit_resolved_turn env resolved b).brain
unfolding commit_resolved_turn apply_committed_quiescence
commit-Stays env resolved b =
    apply_final-Stays env
      (Turn.commit_resolved_turn b.twin_car.current_state b.twin_car.context resolved)
      (final_step (Turn.commit_resolved_turn b.twin_car.current_state b.twin_car.context resolved))
      b
