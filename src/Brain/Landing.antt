-- ===== src/Brain/Landing.antt =====
-- Commits of one hop, and what a commit's actions leave in the brain:
-- crates/common/src/twin_runtime/controller/virtual_car_actor.rs.
use sdv_simulation.Prelude.{List, [], ◌∷◌, ◌++◌, false, ◌≡◌, refl, ap, ◌∙◌}
use sdv_simulation.Prelude.Result.{ok}
use sdv_simulation.Fsm.{StepResult}
use sdv_simulation.Twin.{apply_step}
use sdv_simulation.Turn.{
  HopRecord, ResolvedTurn, apply_single_hop, run_to_quiescence, merged_actions, final_step,
}
use sdv_simulation.Turn
use sdv_simulation.Turn.Quiescence.{endangered, run_to_quiescence-two_hops}
use sdv_simulation.Turn.Routine.{has_lifecycle, has_lifecycle-append}
use sdv_simulation.Prelude.Word.{u64_max, saturating_add}
use sdv_simulation.Brain.{Env, Brain, Outcome, Effect, behind, and_then}
use sdv_simulation.Brain.Commit.{
  try_emit_transition_record, emit_records, dispatch_all, report, apply_final,
  apply_committed_quiescence, commit_resolved_turn,
}
use sdv_simulation.Brain.Car.{commit-car}
use sdv_simulation.Brain.Routine.{apply_final-KeepsQueue}
use sdv_simulation.Brain.Lacks.{IsFree, commit-IsFree}
use sdv_simulation.Brain.Tells.{is_tell, is_tell-IsOutward, actions_tell_nothing}
use sdv_simulation.Brain.Success.{IsReachable, commit-HasSucceeded}

-- The first hop of the turn that the brain is to commit.
abbrev pub hop_of : ResolvedTurn → Brain → StepResult
hop_of resolved b =
    apply_single_hop b.twin_car.current_state b.twin_car.context resolved.ingress resolved.now
      resolved.zone_replies

-- The turn ends with its first hop.
abbrev pub IsSingle : ResolvedTurn → Brain → Type 0
IsSingle resolved b =
    endangered (hop_of resolved b).next_state (hop_of resolved b).modified_ctx ≡ false

pub single_hop :
    (resolved : ResolvedTurn) (b : Brain)
    → IsSingle resolved b
    → Turn.commit_resolved_turn b.twin_car.current_state b.twin_car.context resolved
      ≡ record { event = resolved.ingress; result = hop_of resolved b } ∷ []
single_hop resolved b calm =
    run_to_quiescence-two_hops b.twin_car.current_state b.twin_car.context resolved.ingress
      resolved.now resolved.zone_replies
    ∙ rw calm refl

single_tells_nothing :
    (env : Env) (resolved : ResolvedTurn) (b : Brain)
    → IsSingle resolved b
    → has_lifecycle (hop_of resolved b).actions ≡ false
    → IsFree is_tell (commit_resolved_turn env resolved b)
single_tells_nothing env resolved b calm plain =
    let single = single_hop resolved b calm in
    commit-IsFree is_tell is_tell-IsOutward env resolved b (hop_of resolved b)
      (ap final_step single)
      (rw single (
        actions_tell_nothing env ((hop_of resolved b).actions ++ [])
          (has_lifecycle-append (hop_of resolved b).actions [] plain)))

-- What a commit of one hop that starts and stops no assembly leaves.
pub record Lands (h : StepResult) (b : Brain) (o : Outcome) : Type 0 where
  pub success : o.result ≡ ok tt
  pub queue : o.brain.barrier_queue ≡ b.barrier_queue
  pub car : o.brain.twin_car ≡ apply_step h.next_state h.modified_ctx b.twin_car
  pub mute : IsFree is_tell o

pub commit-Lands :
    (env : Env) (resolved : ResolvedTurn) (b : Brain)
    → IsReachable env
    → IsSingle resolved b
    → has_lifecycle (hop_of resolved b).actions ≡ false
    → Lands (hop_of resolved b) b (commit_resolved_turn env resolved b)
unfolding commit_resolved_turn apply_committed_quiescence
commit-Lands env resolved b reachable calm plain =
    let single = single_hop resolved b calm in
    let h = hop_of resolved b in
    record {
      success = commit-HasSucceeded env reachable resolved b;
      queue = rw single (
          apply_final-KeepsQueue env (record { event = resolved.ingress; result = h } ∷ []) h b
            (has_lifecycle-append h.actions [] plain ∙ refl));
      car = commit-car env resolved b h (ap final_step single);
      mute = single_tells_nothing env resolved b calm plain;
    }

-- The brain in which the actions of a turn of one hop are carried out.
abbrev pub acting : StepResult → Brain → Brain
acting h b = record b {
  next_record_seq = saturating_add u64_max b.next_record_seq 1;
  twin_car = apply_step h.next_state h.modified_ctx b.twin_car;
}

-- The one record of such a turn.
abbrev pub recorded : Env → StepResult → Brain → List Effect
recorded env h b =
    try_emit_transition_record env b.next_record_seq h.transition_record
      (record b { next_record_seq = saturating_add u64_max b.next_record_seq 1 })

-- A commit of one hop: its record, its actions, and the report.
pub commit_of_one_hop :
    (env : Env) (resolved : ResolvedTurn) (b : Brain)
    → IsSingle resolved b
    → let h = hop_of resolved b in
      commit_resolved_turn env resolved b
      ≡ and_then
          (report env b.twin_car.current_state b.twin_car.context.headlamp.state
            h.modified_ctx.headlamp.state)
          (behind (recorded env h b ++ []) (dispatch_all env (h.actions ++ []) (acting h b)))
unfolding commit_resolved_turn apply_committed_quiescence apply_final emit_records
commit_of_one_hop env resolved b calm = rw (single_hop resolved b calm) refl
