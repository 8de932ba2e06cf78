-- ===== src/Turn/Routine.antt =====
-- Events that neither switch the car nor come from an assembly's start or stop, in the modes
-- between: crates/common/src/fsm/transition_map.rs and twin_runtime/twin_turn.rs.
use sdv_simulation.Prelude.{Bool, true, false, List, [], ◌∷◌, ◌++◌, ◌≡◌, refl, ◌∙◌, arith, some}
use sdv_simulation.Physics.{Instant}
use sdv_simulation.Modes.{AssemblyId, FsmState}
use sdv_simulation.Zones.{VehicleContext}
use sdv_simulation.Fsm.Machineries.{FsmEvent, DomainAction}
use sdv_simulation.Fsm.Transition.{transition, output}
use sdv_simulation.Fsm.{step, StepResult}
use sdv_simulation.Turn.Replies.{ZoneReplies}
use sdv_simulation.Twin.{ZoneMessage}
use sdv_simulation.Turn.Zone.{
  ZoneOutcome, zone_turn, zone_outcomes_to_domain_actions, zone_message_for_event,
  user_event_to_zone_tell,
}
use sdv_simulation.Turn.{
  HopRecord, apply_single_hop, apply_external_hop, run_to_quiescence, final_step, merged_actions,
}
use sdv_simulation.Turn.Quiescence.{turn_cases, danger_hop, danger_hop-state}

-- Neither the key nor an assembly, and no heartbeat.
abbrev pub is_routine : FsmEvent → Bool
is_routine FsmEvent.power_on = false
is_routine FsmEvent.power_off = false
is_routine FsmEvent.timer_tick = false
is_routine (FsmEvent.internal o) = false
is_routine (FsmEvent.assembly_zone_ready a) = false
is_routine _ = true

-- The assemblies are neither being started nor stopped.
abbrev pub is_operational : FsmState → Bool
is_operational (FsmState.preparing_to_start _) = false
is_operational (FsmState.preparing_to_stop _) = false
is_operational _ = true

-- An event with a tell is routine, and is told in an operational mode only.
pub told_is_routine :
    (e : FsmEvent) (a : AssemblyId) (m : ZoneMessage)
    → user_event_to_zone_tell e ≡ some (a, m)
    → is_routine e ≡ true
unfolding user_event_to_zone_tell
told_is_routine e a m told = ground arith

pub told_is_operational :
    (e : FsmEvent) (s : FsmState) (a : AssemblyId) (m : ZoneMessage)
    → zone_message_for_event e s ≡ some (a, m)
    → is_operational s ≡ true
unfolding zone_message_for_event
told_is_operational e (FsmState.preparing_to_start _) a m told = cc
told_is_operational e (FsmState.preparing_to_stop _) a m told = cc
told_is_operational e _ a m told = refl

abbrev pub has_lifecycle : List DomainAction → Bool
has_lifecycle [] = false
has_lifecycle (DomainAction.start_assemblies as' ∷ more) = true
has_lifecycle (DomainAction.stop_assemblies as' ∷ more) = true
has_lifecycle (_ ∷ more) = has_lifecycle more

pub has_lifecycle-append :
    (xs ys : List DomainAction)
    → has_lifecycle xs ≡ false
    → has_lifecycle (xs ++ ys) ≡ has_lifecycle ys
has_lifecycle-append [] ys h = refl
has_lifecycle-append (DomainAction.start_assemblies as' ∷ xs) ys h = cc
has_lifecycle-append (DomainAction.stop_assemblies as' ∷ xs) ys h = cc
has_lifecycle-append (_ ∷ xs) ys h = has_lifecycle-append xs ys h

outcomes_switch_nothing :
    (os : List ZoneOutcome) → has_lifecycle (zone_outcomes_to_domain_actions os) ≡ false
outcomes_switch_nothing [] = refl
outcomes_switch_nothing (ZoneOutcome.headlamp o ∷ os) = ground (arith, outcomes_switch_nothing os)
outcomes_switch_nothing (ZoneOutcome.wiper o ∷ os) = ground (arith, outcomes_switch_nothing os)

-- A step that starts and stops no assembly and ends in an operational mode.
record IsSmooth (r : StepResult) : Type 0 where
  switches_nothing : has_lifecycle r.actions ≡ false
  operational : is_operational r.next_state ≡ true

step-IsSmooth :
    (s : FsmState) (c : VehicleContext) (e : FsmEvent) (now : Instant)
    → is_routine e ≡ true
    → is_operational s ≡ true
    → IsSmooth (step s c e now)
unfolding step transition output
step-IsSmooth FsmState.off c e now h k = ground arith
step-IsSmooth _ c e now h k = ground arith

external-IsSmooth :
    (s : FsmState) (c : VehicleContext) (e : FsmEvent) (now : Instant) (r : ZoneReplies)
    → is_routine e ≡ true
    → is_operational s ≡ true
    → IsSmooth (apply_external_hop s c e now r)
unfolding apply_external_hop
external-IsSmooth s c e now r h k =
    let zone = zone_turn c e s now r in
    let v = step-IsSmooth s zone.ctx e now h k in
    record {
      switches_nothing =
          has_lifecycle-append (zone_outcomes_to_domain_actions zone.outcomes) _
            (outcomes_switch_nothing zone.outcomes)
          ∙ v.switches_nothing;
      operational = v.operational;
    }

hop-IsSmooth :
    (s : FsmState) (c : VehicleContext) (e : FsmEvent) (now : Instant) (r : ZoneReplies)
    → is_routine e ≡ true
    → is_operational s ≡ true
    → IsSmooth (apply_single_hop s c e now r)
unfolding apply_single_hop
hop-IsSmooth s c (FsmEvent.internal o) now r h k = cc
hop-IsSmooth s c e now r h k = external-IsSmooth s c e now r h k

danger_switches_nothing :
    (c : VehicleContext) (now : Instant)
    → has_lifecycle (merged_actions (danger_hop c now ∷ [])) ≡ false
unfolding step transition output
danger_switches_nothing c now = refl

-- What a whole turn comes to.
pub record TurnIsSmooth (c : VehicleContext) (hops : List HopRecord) : Type 0 where
  pub last : StepResult
  pub is_last : final_step hops ≡ some last
  pub switches_nothing : has_lifecycle (merged_actions hops) ≡ false
  pub operational : is_operational last.next_state ≡ true
  pub context : last.modified_ctx ≡ c

hop-context :
    (s : FsmState) (c : VehicleContext) (e : FsmEvent) (now : Instant) (r : ZoneReplies)
    → is_routine e ≡ true
    → (apply_single_hop s c e now r).modified_ctx ≡ (zone_turn c e s now r).ctx
unfolding apply_single_hop apply_external_hop step
hop-context s c (FsmEvent.internal o) now r h = cc
hop-context s c e now r h = refl

-- A routine event in an operational mode starts and stops no assembly, leaves the mode
-- operational, and ends in the context that the zones leave.
pub run_to_quiescence-TurnIsSmooth :
    (s : FsmState) (c : VehicleContext) (e : FsmEvent) (now : Instant) (r : ZoneReplies)
    → is_routine e ≡ true
    → is_operational s ≡ true
    → TurnIsSmooth (zone_turn c e s now r).ctx (run_to_quiescence s c e now r)
run_to_quiescence-TurnIsSmooth s c e now r h k =
    let v = hop-IsSmooth s c e now r h k in
    let context = hop-context s c e now r h in
    let first = apply_single_hop s c e now r in
    turn_cases s c e now r (TurnIsSmooth (zone_turn c e s now r).ctx)
      (λ calm. record {
        last = first;
        is_last = refl;
        switches_nothing = has_lifecycle-append first.actions [] v.switches_nothing;
        operational = v.operational;
        context = context;
      })
      (λ danger drives. record {
        last = (danger_hop first.modified_ctx now).result;
        is_last = refl;
        switches_nothing =
            has_lifecycle-append first.actions _ v.switches_nothing
            ∙ danger_switches_nothing first.modified_ctx now;
        operational = unfold step transition in refl;
        context = (danger_hop-state first.modified_ctx now).1 ∙ context;
      })
