-- ===== src/Brain/Ledger.antt =====
-- The numbers of the ledger's records that a commit of
-- crates/common/src/twin_runtime/controller/virtual_car_actor.rs publishes.
use sdv_simulation.Prelude.{
  ℕ, zero, suc, ◌+◌, ◌≤◌, Bool, true, false, List, [], ◌∷◌, length, Option, none, some, ◌≡◌, refl,
  ap, ◌∙◌, ◌<◌, if◌then◌else◌, arith, inl, inr, Option-cases, append-nil,
}
use sdv_simulation.Prelude.Word.{u64_max, saturating_add}
use sdv_simulation.Prelude.Result.{Result-cases}
use sdv_simulation.Modes.{FsmState, state_eq}
use sdv_simulation.Logs.{FrontHeadlampSwitchDirection}
use sdv_simulation.Zones.Headlamp.{HeadlampState}
use sdv_simulation.Fsm.{StepResult}
use sdv_simulation.Twin.{apply_step}
use sdv_simulation.Turn.{HopRecord, ResolvedTurn, final_step, merged_actions, run_to_quiescence}
use sdv_simulation.Turn
use sdv_simulation.Turn.Quiescence.{run_to_quiescence-Settles}
use sdv_simulation.Published.Record
use sdv_simulation.Brain.{
  TransitionSinkError, Diagnostic, state_transition, front_headlamp_confirmed, Env, Brain, Outcome,
  and_then, diag, front_headlamp_confirmed_direction,
}
use sdv_simulation.Brain.Commit.{
  sink_refused, try_emit_transition_record, emit_records, take_step, apply_hops, report,
  apply_final, apply_committed_quiescence, commit_resolved_turn,
}
use sdv_simulation.Brain.Quiet.{
  published, published-append, diag-silent, IsQuiet, dispatch_all-IsQuiet,
}

-- n, n + 1 and so on, k of them.
abbrev pub numbers : ℕ → ℕ → List ℕ
numbers n zero = []
numbers n (suc k) = n ∷ numbers (suc n) k

-- What publishes the given numbers and leaves the given one as the next.
pub record Numbers (ns : List ℕ) (next : ℕ) (o : Outcome) : Type 0 where
  pub published_are : published o.effects ≡ ns
  pub next_is : o.brain.next_record_seq ≡ next

Numbers-and_then :
    (ns : List ℕ) (next : ℕ) (f : Brain → Outcome) (o : Outcome)
    → Numbers ns next o
    → ((b' : Brain) → IsQuiet b' (f b'))
    → Numbers ns next (and_then f o)
Numbers-and_then ns next f o n k = elim (Result-cases o.result) [
  | inl (u, e) ↦ rw e (record {
    published_are =
        published-append o.effects (f o.brain).effects
        ∙ rw (n.published_are, (k o.brain).silent) (append-nil ns);
    next_is = (k o.brain).same ∙ n.next_is;
  })
  | inr (x, e) ↦ rw e (record { published_are = n.published_are; next_is = n.next_is })
]

emitted :
    (env : Env) (sink : ℕ → Option TransitionSinkError) (n : ℕ) (h : HopRecord) (b : Brain)
    → env.transition_sink ≡ some sink
    → published (try_emit_transition_record env n h.result.transition_record b) ≡ n ∷ []
unfolding try_emit_transition_record Record.project
emitted env sink n h b has = elim (Option-cases (sink n)) [
  | inl e ↦ rw (has, e) refl
  | inr (x, e) ↦ rw (has, e) (ap (◌∷◌ n) (diag-silent env (sink_refused x)))
]

next_seq : (n : ℕ) → n < u64_max → saturating_add u64_max n 1 ≡ suc n
next_seq n h = omega arith

emit_records-Numbers :
    (env : Env) (sink : ℕ → Option TransitionSinkError) (hops : List HopRecord) (b : Brain)
    → env.transition_sink ≡ some sink
    → b.next_record_seq + length hops ≤ u64_max
    → let n = b.next_record_seq in
      Numbers (numbers n (length hops)) (n + length hops) (emit_records env hops b)
unfolding emit_records
emit_records-Numbers env sink [] b has small = record {
  published_are = refl;
  next_is = omega arith;
}
emit_records-Numbers env sink (h ∷ hops) b has small =
    let n = b.next_record_seq in
    let b' = record b { next_record_seq = saturating_add u64_max n 1 } in
    let up = next_seq n (omega arith) in
    let rest = emit_records-Numbers env sink hops b' has (rw up (omega arith)) in
    record {
      published_are =
          published-append (try_emit_transition_record env n h.result.transition_record b') _
          ∙ rw (emitted env sink n h b' has)
              (ap (◌∷◌ n) (rest.published_are ∙ ap (λ m. numbers m (length hops)) up));
      next_is = rest.next_is ∙ rw up (omega arith);
    }

changed-silent :
    (env : Env) (same : Bool) (d : Diagnostic) → published (if same then [] else diag env d) ≡ []
changed-silent env true d = refl
changed-silent env false d = diag-silent env d

confirmed-silent :
    (env : Env) (o : Option FrontHeadlampSwitchDirection)
    → published
        (elim o [ none ↦ [] | some direction ↦ diag env (front_headlamp_confirmed direction) ])
      ≡ []
confirmed-silent env none = refl
confirmed-silent env (some direction) = diag-silent env _

report-IsQuiet :
    (env : Env) (s : FsmState) (h k : HeadlampState) (b : Brain) → IsQuiet b (report env s h k b)
report-IsQuiet env s h k b =
    let car = b.twin_car in
    record {
      silent =
          published-append
            (if state_eq car.current_state s
              then []
              else diag env (state_transition car.current_state car.context))
            _
          ∙ rw
              (changed-silent env (state_eq car.current_state s)
                (state_transition car.current_state car.context))
              (confirmed-silent env (front_headlamp_confirmed_direction h k));
      same = refl;
    }

apply_final-Numbers :
    (env : Env) (hops : List HopRecord) (last : StepResult) (ns : List ℕ) (next : ℕ) (b : Brain)
    → Numbers ns next (emit_records env hops b)
    → Numbers ns next (apply_final env hops (some last) b)
unfolding apply_final
apply_final-Numbers env hops last ns next b n =
    Numbers-and_then ns next
      (report env b.twin_car.current_state b.twin_car.context.headlamp.state
        last.modified_ctx.headlamp.state)
      (apply_hops env hops last b)
      (Numbers-and_then ns next (take_step env hops last) (emit_records env hops b) n (λ b'.
        let q =
          dispatch_all-IsQuiet env (merged_actions hops)
            (record b' { twin_car = apply_step last.next_state last.modified_ctx b'.twin_car }) in
        record { silent = q.silent; same = q.same }))
      (report-IsQuiet env b.twin_car.current_state b.twin_car.context.headlamp.state
        last.modified_ctx.headlamp.state)

unfoldable pub hops_of : ResolvedTurn → Brain → List HopRecord
unfolding run_to_quiescence
hops_of resolved b = Turn.commit_resolved_turn b.twin_car.current_state b.twin_car.context resolved

-- Where the ledger has a sink, a commit offers it one record for each hop of the turn, under
-- consecutive numbers from the brain's next one on, and leaves the number after them as the next;
-- whether the sink takes them or refuses them, and though a later tell fails.
pub commit_resolved_turn-Numbers :
    (env : Env) (sink : ℕ → Option TransitionSinkError) (resolved : ResolvedTurn) (b : Brain)
    → env.transition_sink ≡ some sink
    → b.next_record_seq + length (hops_of resolved b) ≤ u64_max
    → let n = b.next_record_seq in
      let count = length (hops_of resolved b) in
      Numbers (numbers n count) (n + count) (commit_resolved_turn env resolved b)
unfolding commit_resolved_turn apply_committed_quiescence hops_of
commit_resolved_turn-Numbers env sink resolved b has small =
    let hops = hops_of resolved b in
    let settles =
      run_to_quiescence-Settles b.twin_car.current_state b.twin_car.context resolved.ingress
        resolved.now resolved.zone_replies in
    rw settles.is_last (
      apply_final-Numbers env hops settles.last _ _ b
        (emit_records-Numbers env sink hops b has small))
