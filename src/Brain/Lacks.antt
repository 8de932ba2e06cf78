-- ===== src/Brain/Lacks.antt =====
-- What a commit of crates/common/src/twin_runtime/controller/virtual_car_actor.rs does not do to
-- the world: effects of a kind that its actions do not bring.
use sdv_simulation.Prelude.{
  ℕ, Bool, false, ◌||◌, List, [], ◌∷◌, ◌++◌, Option, none, some, ◌≡◌, refl, ◌∙◌, arith, All, inl,
  inr, if◌then◌else◌,
}
use sdv_simulation.Prelude.Word.{u64_max, saturating_add}
use sdv_simulation.Prelude.Result.{Result-cases}
use sdv_simulation.Modes.{FsmState, state_eq}
use sdv_simulation.Logs.{FrontHeadlampSwitchDirection}
use sdv_simulation.Zones.Headlamp.{HeadlampState}
use sdv_simulation.Fsm.Machineries.{DomainAction}
use sdv_simulation.Fsm.{StepResult, RawTransitionRecord}
use sdv_simulation.Turn.{HopRecord, ResolvedTurn, final_step, merged_actions}
use sdv_simulation.Turn
use sdv_simulation.Published.Record.{PublishedTransitionRecord}
use sdv_simulation.Brain.{
  Effect, publish, diagnose, Diagnostic, state_transition, front_headlamp_confirmed,
  front_headlamp_confirmed_direction, Env, Brain, Outcome, and_then, diag,
}
use sdv_simulation.Brain.Commit.{
  try_emit_transition_record, emit_records, dispatch, dispatch_all, take_step, apply_hops, report,
  apply_final, apply_committed_quiescence, commit_resolved_turn,
}

abbrev pub any : (Effect → Bool) → List Effect → Bool
any p [] = false
any p (e ∷ es) = p e || any p es

pub any-append :
    (p : Effect → Bool) (xs ys : List Effect) → any p xs ≡ false → any p (xs ++ ys) ≡ any p ys
any-append p [] ys h = refl
any-append p (x ∷ xs) ys h = ground (arith, any-append p xs ys)

-- No effect is of that kind.
abbrev pub IsFree : (Effect → Bool) → Outcome → Type 0
IsFree p o = any p o.effects ≡ false

-- The kind has neither ledger records nor diagnostics.
pub record IsOutward (p : Effect → Bool) : Type 0 where
  pub records : (r : PublishedTransitionRecord) → p (publish r) ≡ false
  pub diagnostics : (d : Diagnostic) → p (diagnose d) ≡ false

module _ (p : Effect → Bool) where
  IsFree-and_then :
      (f : Brain → Outcome) (o : Outcome)
      → IsFree p o
      → ((b' : Brain) → IsFree p (f b'))
      → IsFree p (and_then f o)
  IsFree-and_then f o g k = elim (Result-cases o.result) [
    | inl (u, e) ↦ rw e (any-append p o.effects (f o.brain).effects g ∙ k o.brain)
    | inr (x, e) ↦ rw e g
  ]

  pub dispatch_all-IsFree :
      (env : Env) (actions : List DomainAction) (b : Brain)
      → All (λ a. (b' : Brain) → IsFree p (dispatch env a b')) actions
      → IsFree p (dispatch_all env actions b)
  unfolding dispatch_all
  dispatch_all-IsFree env [] b each = refl
  dispatch_all-IsFree env (action ∷ actions) b (this, others) =
      IsFree-and_then (dispatch_all env actions) (dispatch env action b) (this b)
        (λ b'. dispatch_all-IsFree env actions b' others)

module _ (p : Effect → Bool) (v : IsOutward p) where
  pub diag-free : (env : Env) (d : Diagnostic) → any p (diag env d) ≡ false
  diag-free env d = ground (arith, v.diagnostics d)

  pub record-free :
      (env : Env) (n : ℕ) (raw : RawTransitionRecord) (b : Brain)
      → any p (try_emit_transition_record env n raw b) ≡ false
  unfolding try_emit_transition_record
  record-free env n raw b = grind (arith, v.records, v.diagnostics)

  emit_records-IsFree :
      (env : Env) (hops : List HopRecord) (b : Brain) → IsFree p (emit_records env hops b)
  unfolding emit_records
  emit_records-IsFree env [] b = refl
  emit_records-IsFree env (h ∷ hops) b =
      let b' = record b { next_record_seq = saturating_add u64_max b.next_record_seq 1 } in
      let raw = h.result.transition_record in
      any-append p (try_emit_transition_record env b.next_record_seq raw b')
        (emit_records env hops b').effects (record-free env b.next_record_seq raw b')
      ∙ emit_records-IsFree env hops b'

  changed-free :
      (env : Env) (s : FsmState) (b : Brain)
      → any p (
          if state_eq b.twin_car.current_state s
          then []
          else diag env (state_transition b.twin_car.current_state b.twin_car.context))
        ≡ false
  changed-free env s b =
      ground (arith, v.diagnostics (state_transition b.twin_car.current_state b.twin_car.context))

  confirmed-free :
      (env : Env) (o : Option FrontHeadlampSwitchDirection)
      → any p
          (elim o [ none ↦ [] | some direction ↦ diag env (front_headlamp_confirmed direction) ])
        ≡ false
  confirmed-free env none = refl
  confirmed-free env (some direction) = diag-free env (front_headlamp_confirmed direction)

  pub report-IsFree :
      (env : Env) (s : FsmState) (before after : HeadlampState) (b : Brain)
      → IsFree p (report env s before after b)
  report-IsFree env s before after b =
      let car = b.twin_car in
      let changed =
        if state_eq car.current_state s
        then []
        else diag env (state_transition car.current_state car.context) in
      any-append p changed _ (changed-free env s b)
      ∙ confirmed-free env (front_headlamp_confirmed_direction before after)

  apply_final-IsFree :
      (env : Env) (hops : List HopRecord) (last : StepResult) (b : Brain)
      → All (λ a. (b' : Brain) → IsFree p (dispatch env a b')) (merged_actions hops)
      → IsFree p (apply_final env hops (some last) b)
  unfolding apply_final
  apply_final-IsFree env hops last b each =
      let shown =
        report env b.twin_car.current_state b.twin_car.context.headlamp.state
          last.modified_ctx.headlamp.state in
      IsFree-and_then p shown (apply_hops env hops last b)
        (IsFree-and_then p (take_step env hops last) (emit_records env hops b)
          (emit_records-IsFree env hops b)
          (λ b'. dispatch_all-IsFree p env (merged_actions hops) _ each))
        (λ b'.
          report-IsFree env b.twin_car.current_state b.twin_car.context.headlamp.state
            last.modified_ctx.headlamp.state b')

  -- A commit does what its actions do, and besides only publishes records and diagnostics.
  pub commit-IsFree :
      (env : Env) (resolved : ResolvedTurn) (b : Brain) (last : StepResult)
      → let hops = Turn.commit_resolved_turn b.twin_car.current_state b.twin_car.context resolved in
        final_step hops ≡ some last
        → All (λ a. (b' : Brain) → IsFree p (dispatch env a b')) (merged_actions hops)
        → IsFree p (commit_resolved_turn env resolved b)
  unfolding commit_resolved_turn apply_committed_quiescence
  commit-IsFree env resolved b last ends each =
      let hops = Turn.commit_resolved_turn b.twin_car.current_state b.twin_car.context resolved in
      rw ends (apply_final-IsFree env hops last b each)
