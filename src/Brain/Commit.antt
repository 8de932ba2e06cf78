-- ===== src/Brain/Commit.antt =====
-- The commit of a resolved turn: `commit_resolved_turn`, `apply_committed_quiescence` and
-- `try_emit_transition_record` of crates/common/src/twin_runtime/controller/virtual_car_actor.rs.
use sdv_simulation.Prelude.{ℕ, List, [], ◌∷◌, ◌++◌, map, Option, none, some, if◌then◌else◌}
use sdv_simulation.Prelude.Word.{u64_max, saturating_add}
use sdv_simulation.Prelude.Result.{ok, err}
use sdv_simulation.Physics.{Instant}
use sdv_simulation.Modes.{AssemblyId, FsmState, state_eq}
use sdv_simulation.Zones.Headlamp.{HeadlampState}
use sdv_simulation.Fsm.{StepResult, RawTransitionRecord}
use sdv_simulation.Fsm.Machineries.{DomainAction}
use sdv_simulation.Twin.{ZoneMessage, apply_step}
use sdv_simulation.Turn.{HopRecord, ResolvedTurn, final_step, merged_actions, run_to_quiescence}
use sdv_simulation.Turn
use sdv_simulation.Barrier.{new_for_assembly_zone}
use sdv_simulation.Barrier.Entry.{waiting}
use sdv_simulation.Barrier.Wait
use sdv_simulation.Published.Record
use sdv_simulation.Actuation.{Execution, execute}
use sdv_simulation.Brain.{
  TransitionSinkError, full, closed, Diagnostic, warning, actuation_failure, state_transition,
  front_headlamp_confirmed, transition_sink_full, transition_sink_closed, Effect, arm, publish,
  command, Env, Brain, Outcome, no_hops, did, fail, behind, and_then, diag, read_clock, tick,
  advance_id, tell_zone, tell_back_timer, push_back, become_on_message_for, become_off_message_for,
  front_headlamp_confirmed_direction,
}

abbrev pub sink_refused : TransitionSinkError → Diagnostic
sink_refused full = transition_sink_full
sink_refused closed = transition_sink_closed

unfoldable pub try_emit_transition_record : Env → ℕ → RawTransitionRecord → Brain → List Effect
unfolding Record.project
try_emit_transition_record env record_seq raw b = elim env.transition_sink [
  | none ↦ []
  | some try_emit ↦
      publish (Record.project raw b.twin_car.identity record_seq b.session_epoch)
      ∷ elim (try_emit record_seq) [ none ↦ [] | some e ↦ diag env (sink_refused e) ]
]

-- `for hop in &quiescent.hops`: each hop's record goes out under the next number.
unfoldable pub emit_records : Env → List HopRecord → Brain → Outcome
unfolding try_emit_transition_record
emit_records env [] b = did [] b
emit_records env (h ∷ hops) b =
    let b' = record b { next_record_seq = saturating_add u64_max b.next_record_seq 1 } in
    behind (try_emit_transition_record env b.next_record_seq h.result.transition_record b')
      (emit_records env hops b')

-- One lifecycle tell of `StartAssemblies` or `StopAssemblies`, told at `now`.
unfoldable pub begin_assembly_zone :
    Env → (AssemblyId → ZoneMessage) → Instant → AssemblyId → Brain → Outcome
unfolding tell_zone
begin_assembly_zone env message now a b =
    let turn_id = b.next_turn_id in
    let timer = tell_back_timer a turn_id 0 in
    and_then
      (λ b'. did (arm timer ∷ []) (
        push_back
          (waiting (new_for_assembly_zone turn_id a (message a) (Wait.new turn_id) timer now)) b'))
      (tell_zone env (message a) turn_id 0 now (record b { next_turn_id = advance_id turn_id }))

unfoldable pub begin_assembly_zones :
    Env → (AssemblyId → ZoneMessage) → Instant → List AssemblyId → Brain → Outcome
unfolding begin_assembly_zone
begin_assembly_zones env message now [] b = did [] b
begin_assembly_zones env message now (a ∷ as') b =
    and_then (begin_assembly_zones env message now as') (begin_assembly_zone env message now a b)

abbrev pub actuated : Env → DomainAction → Brain → Execution → Outcome
actuated env action b x =
    did
      (map command x.commands
        ++ elim x.result [ ok u ↦ [] | err e ↦ diag env (actuation_failure action e) ])
      (record b { actuation_manager = x.manager })

-- One action of the turn's merged actions.
unfoldable pub dispatch : Env → DomainAction → Brain → Outcome
unfolding begin_assembly_zones execute
dispatch env (DomainAction.log_warning message) b = did (diag env (warning message)) b
dispatch env (DomainAction.start_assemblies assemblies) b =
    begin_assembly_zones env become_on_message_for (read_clock env b) assemblies (tick b)
dispatch env (DomainAction.stop_assemblies assemblies) b =
    begin_assembly_zones env become_off_message_for (read_clock env b) assemblies (tick b)
dispatch env other_action b = actuated env other_action b (execute other_action b.actuation_manager)

unfoldable pub dispatch_all : Env → List DomainAction → Brain → Outcome
unfolding dispatch
dispatch_all env [] b = did [] b
dispatch_all env (action ∷ actions) b = and_then (dispatch_all env actions) (dispatch env action b)

-- The diagnostics at the end: a change of mode, then a confirmed switch of the headlamp.
abbrev pub report : Env → FsmState → HeadlampState → HeadlampState → Brain → Outcome
report env old_state headlamp_before headlamp_after b =
    let car = b.twin_car in
    did
      ((if state_eq car.current_state old_state
          then []
          else diag env (state_transition car.current_state car.context))
        ++ elim (front_headlamp_confirmed_direction headlamp_before headlamp_after) [
          | none ↦ []
          | some direction ↦ diag env (front_headlamp_confirmed direction)
        ])
      b

-- `apply_step`, then the merged actions.
abbrev pub take_step : Env → List HopRecord → StepResult → Brain → Outcome
take_step env hops last b =
    dispatch_all env (merged_actions hops)
      (record b { twin_car = apply_step last.next_state last.modified_ctx b.twin_car })

abbrev pub apply_hops : Env → List HopRecord → StepResult → Brain → Outcome
apply_hops env hops last b = and_then (take_step env hops last) (emit_records env hops b)

-- `final_step` panics where there is no hop; there always is one.
unfoldable pub apply_final : Env → List HopRecord → Option StepResult → Brain → Outcome
unfolding emit_records dispatch_all
apply_final env hops none b = fail no_hops b
apply_final env hops (some last) b =
    and_then
      (report env b.twin_car.current_state b.twin_car.context.headlamp.state
        last.modified_ctx.headlamp.state)
      (apply_hops env hops last b)

unfoldable pub apply_committed_quiescence : Env → List HopRecord → Brain → Outcome
unfolding apply_final
apply_committed_quiescence env hops b = apply_final env hops (final_step hops) b

unfoldable pub commit_resolved_turn : Env → ResolvedTurn → Brain → Outcome
unfolding apply_committed_quiescence run_to_quiescence
commit_resolved_turn env resolved b =
    apply_committed_quiescence env
      (Turn.commit_resolved_turn b.twin_car.current_state b.twin_car.context resolved) b
