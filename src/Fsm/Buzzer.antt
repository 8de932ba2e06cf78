-- ===== src/Fsm/Buzzer.antt =====
-- The buzzer against the mode: the actions of a step of crates/common/src/fsm/step.rs.
use sdv_simulation.Prelude.{Bool, true, false, List, [], ◌∷◌, ◌++◌, Option, none, some, ◌≡◌, arith}
use sdv_simulation.Physics.{Instant}
use sdv_simulation.Modes.{FsmState}
use sdv_simulation.Zones.{VehicleContext}
use sdv_simulation.Fsm.Machineries.{FsmEvent, DomainAction}
use sdv_simulation.Fsm.Transition.{transition, output}
use sdv_simulation.Fsm.{step}

-- The modes in which the buzzer is meant to sound.
abbrev pub alarming : FsmState → Bool
alarming FsmState.driving_dangerously = true
alarming (FsmState.extreme_operation_warning _) = true
alarming _ = false

-- A buzzer that carries out the actions in turn; `none` when it is started while it sounds, or
-- stopped while it is silent.
abbrev pub sound : Bool → List DomainAction → Option Bool
sound b [] = some b
sound false (DomainAction.start_buzzer ∷ rest) = sound true rest
sound true (DomainAction.start_buzzer ∷ rest) = none
sound true (DomainAction.stop_buzzer ∷ rest) = sound false rest
sound false (DomainAction.stop_buzzer ∷ rest) = none
sound b (_ ∷ rest) = sound b rest

pub sound-append :
    (b : Bool) (xs ys : List DomainAction) {c : Bool}
    → sound b xs ≡ some c
    → sound b (xs ++ ys) ≡ sound c ys
sound-append b [] ys h = ground arith
sound-append false (DomainAction.start_buzzer ∷ xs) ys h = sound-append true xs ys h
sound-append true (DomainAction.start_buzzer ∷ xs) ys h = ground arith
sound-append true (DomainAction.stop_buzzer ∷ xs) ys h = sound-append false xs ys h
sound-append false (DomainAction.stop_buzzer ∷ xs) ys h = ground arith
sound-append true (_ ∷ xs) ys h = sound-append true xs ys h
sound-append false (_ ∷ xs) ys h = sound-append false xs ys h

-- Whatever the step, its actions start a silent buzzer or stop a sounding one, or leave it, such
-- that it sounds afterwards exactly in the alarming modes.
pub step-sound :
    (s : FsmState) (c : VehicleContext) (e : FsmEvent) (now : Instant)
    → sound (alarming s) (step s c e now).actions ≡ some (alarming (step s c e now).next_state)
unfolding step transition output
step-sound FsmState.off c e now = ground arith
step-sound _ c e now = ground arith
