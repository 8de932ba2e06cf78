-- ===== src/Turn/Buzzer.antt =====
-- The buzzer over a whole turn, and what the ledger keeps of a hop:
-- crates/common/src/twin_runtime/twin_turn.rs.
use sdv_simulation.Prelude.{
  Bool, ◌++◌, List, [], ◌∷◌, some, ◌≡◌, refl, ap, ◌∙◌, arith, append-nil, All,
}
use mathlib.Core.Option.{some-injective}
use sdv_simulation.Physics.{Instant}
use sdv_simulation.Modes.{FsmState}
use sdv_simulation.Zones.{VehicleContext}
use sdv_simulation.Fsm.Machineries.{FsmEvent, DomainAction}
use sdv_simulation.Fsm.Buzzer.{alarming, sound, sound-append, step-sound}
use sdv_simulation.Fsm.{StepResult, step}
use sdv_simulation.Turn.Replies.{ZoneReplies}
use sdv_simulation.Turn.Zone.{ZoneOutcome, zone_turn, zone_outcomes_to_domain_actions}
use sdv_simulation.Zones.Headlamp.{HeadlampOutcome}
use sdv_simulation.Zones.Wiper.{WiperOutcome}
use sdv_simulation.Turn.{
  HopRecord, apply_external_hop, apply_single_hop, run_to_quiescence, final_step, merged_actions,
}
use sdv_simulation.Turn.Quiescence.{danger_hop, turn_cases}

-- No zone outcome touches the buzzer.
sound-zones :
    (b : Bool) (os : List ZoneOutcome) (xs : List DomainAction)
    → sound b (zone_outcomes_to_domain_actions os ++ xs) ≡ sound b xs
sound-zones b [] xs = refl
sound-zones b (ZoneOutcome.headlamp HeadlampOutcome.request_on ∷ os) xs =
    ground (arith, sound-zones b os xs)
sound-zones b (ZoneOutcome.headlamp HeadlampOutcome.request_off ∷ os) xs =
    ground (arith, sound-zones b os xs)
sound-zones b (ZoneOutcome.headlamp (HeadlampOutcome.log_warning m) ∷ os) xs =
    ground (arith, sound-zones b os xs)
sound-zones b (ZoneOutcome.wiper WiperOutcome.start_wiping ∷ os) xs =
    ground (arith, sound-zones b os xs)
sound-zones b (ZoneOutcome.wiper WiperOutcome.stop_wiping ∷ os) xs =
    ground (arith, sound-zones b os xs)
sound-zones b (ZoneOutcome.wiper (WiperOutcome.log_warning m) ∷ os) xs =
    ground (arith, sound-zones b os xs)

apply_external_hop-sound :
    (s : FsmState) (c : VehicleContext) (e : FsmEvent) (now : Instant) (r : ZoneReplies)
    → let h = apply_external_hop s c e now r in
      sound (alarming s) h.actions ≡ some (alarming h.next_state)
unfolding apply_external_hop
apply_external_hop-sound s c e now r =
    let z = zone_turn c e s now r in
    sound-zones (alarming s) z.outcomes (step s z.ctx e now).actions ∙ step-sound s z.ctx e now

hop-sound :
    (s : FsmState) (c : VehicleContext) (e : FsmEvent) (now : Instant) (r : ZoneReplies)
    → let h = apply_single_hop s c e now r in
      sound (alarming s) h.actions ≡ some (alarming h.next_state)
unfolding apply_single_hop
hop-sound s c (FsmEvent.internal o) now r = step-sound s c (FsmEvent.internal o) now
hop-sound s c _ now r = apply_external_hop-sound s c _ now r

hop_old_ctx :
    (s : FsmState) (c : VehicleContext) (e : FsmEvent) (now : Instant) (r : ZoneReplies)
    → let t = (apply_single_hop s c e now r).transition_record in t.old_ctx ≡ t.current_ctx
unfolding apply_single_hop step
hop_old_ctx s c (FsmEvent.internal o) now r = refl
hop_old_ctx s c _ now r = refl

-- What `merged_actions` gives the buzzer, told by the mode that the last hop leaves.
abbrev pub IsSounded : FsmState → List HopRecord → Type 0
IsSounded s hops =
    (f : StepResult)
    → final_step hops ≡ some f
    → sound (alarming s) (merged_actions hops) ≡ some (alarming f.next_state)

-- One hop more behind hops that leave the buzzer as the mode wants it.
sound_then :
    (s n : FsmState) (xs ys : List DomainAction) {b : Bool}
    → sound (alarming s) xs ≡ some (alarming n)
    → sound (alarming n) ys ≡ some b
    → sound (alarming s) (xs ++ (ys ++ [])) ≡ some b
sound_then s n xs ys h k = rw (append-nil ys) (sound-append (alarming s) xs ys h ∙ k)

-- Over a whole turn, from a buzzer that sounds exactly in the alarming modes, the merged actions
-- never start it twice or stop it twice, and it sounds afterwards exactly if the final mode is
-- alarming.
pub run_to_quiescence_sound :
    (s : FsmState) (c : VehicleContext) (e : FsmEvent) (now : Instant) (r : ZoneReplies)
    → IsSounded s (run_to_quiescence s c e now r)
run_to_quiescence_sound s c e now r =
    turn_cases s c e now r (IsSounded s)
      (λ calm f last.
        rw (append-nil (apply_single_hop s c e now r).actions) (
          hop-sound s c e now r ∙ ap (λ g. some (alarming g.next_state)) (some-injective _ _ last)))
      (λ danger drives f last.
        let h = apply_single_hop s c e now r in
        let d = danger_hop h.modified_ctx now in
        sound_then s h.next_state h.actions d.result.actions (hop-sound s c e now r) (
          ap (λ t. sound (alarming t) d.result.actions) drives
          ∙ step-sound FsmState.driving h.modified_ctx d.event now
          ∙ ap (λ g. some (alarming g.next_state)) (some-injective _ _ last)))

-- No record of a turn shows a change of context: each has for its old context the one that its
-- zones have left, which is its current context too.
pub record_old_ctx :
    (s : FsmState) (c : VehicleContext) (e : FsmEvent) (now : Instant) (r : ZoneReplies)
    → All
        (λ h. h.result.transition_record.old_ctx ≡ h.result.transition_record.current_ctx)
        (run_to_quiescence s c e now r)
record_old_ctx s c e now r =
    turn_cases s c e now r
      (All (λ h. h.result.transition_record.old_ctx ≡ h.result.transition_record.current_ctx))
      (λ calm. (hop_old_ctx s c e now r, tt))
      (λ danger drives. (hop_old_ctx s c e now r, (unfold step in refl, tt)))
