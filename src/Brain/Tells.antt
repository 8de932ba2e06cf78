-- ===== src/Brain/Tells.antt =====
-- When a commit of crates/common/src/twin_runtime/controller/virtual_car_actor.rs tells no zone
-- anything, and when it sends no command.
use sdv_simulation.Prelude.{Bool, true, false, List, [], ◌∷◌, ◌++◌, map, ◌≡◌, refl, ◌∙◌, All}
use sdv_simulation.Prelude.Result.{ok, err, Result}
use sdv_simulation.Fsm.Machineries.{DomainAction}
use sdv_simulation.Turn.{ResolvedTurn, merged_actions}
use sdv_simulation.Turn
use sdv_simulation.Turn.Routine.{
  is_routine, is_operational, has_lifecycle, run_to_quiescence-TurnIsSmooth,
}
use sdv_simulation.Actuation.{ActuationCommand, ActuationError, Execution, execute}
use sdv_simulation.Brain.{Effect, tell, command, actuation_failure, Env, Brain, diag}
use sdv_simulation.Brain.Commit.{actuated, dispatch, commit_resolved_turn}
use sdv_simulation.Brain.Lacks.{any, any-append, IsFree, IsOutward, diag-free, commit-IsFree}

abbrev pub is_tell : Effect → Bool
is_tell (tell m t k now) = true
is_tell _ = false

abbrev pub is_command : Effect → Bool
is_command (command c) = true
is_command _ = false

pub is_tell-IsOutward : IsOutward is_tell
is_tell-IsOutward = record { records = λ r. refl; diagnostics = λ d. refl }

is_command-IsOutward : IsOutward is_command
is_command-IsOutward = record { records = λ r. refl; diagnostics = λ d. refl }

result-free :
    (p : Effect → Bool) (v : IsOutward p) (env : Env) (action : DomainAction)
    (r : Result ActuationError (Unit {0}))
    → any p (elim r [ ok u ↦ [] | err e ↦ diag env (actuation_failure action e) ]) ≡ false
result-free p v env action (ok u) = refl
result-free p v env action (err e) = diag-free p v env (actuation_failure action e)

actuated-IsFree :
    (p : Effect → Bool) (v : IsOutward p) (env : Env) (action : DomainAction) (b : Brain)
    (x : Execution)
    → any p (map command x.commands) ≡ false
    → IsFree p (actuated env action b x)
actuated-IsFree p v env action b x h =
    any-append p (map command x.commands)
      (elim x.result [ ok u ↦ [] | err e ↦ diag env (actuation_failure action e) ]) h
    ∙ result-free p v env action x.result

commands_tell_nothing : (cs : List ActuationCommand) → any is_tell (map command cs) ≡ false
commands_tell_nothing [] = refl
commands_tell_nothing (c ∷ cs) = commands_tell_nothing cs

pub actions_tell_nothing :
    (env : Env) (actions : List DomainAction)
    → has_lifecycle actions ≡ false
    → All (λ a. (b : Brain) → IsFree is_tell (dispatch env a b)) actions
unfolding dispatch
actions_tell_nothing env [] h = tt
actions_tell_nothing env (DomainAction.start_assemblies as' ∷ actions) h = cc
actions_tell_nothing env (DomainAction.stop_assemblies as' ∷ actions) h = cc
actions_tell_nothing env (DomainAction.log_warning w ∷ actions) h =
    (λ b. diag-free is_tell is_tell-IsOutward env _, actions_tell_nothing env actions h)
actions_tell_nothing env (action ∷ actions) h = (
  λ b.
      let x = execute action b.actuation_manager in
      actuated-IsFree is_tell is_tell-IsOutward env action b x (commands_tell_nothing x.commands),
  actions_tell_nothing env actions h,
)

-- The commit of a routine event in an operational mode tells no zone anything.
pub commit_tells_nothing :
    (env : Env) (resolved : ResolvedTurn) (b : Brain)
    → is_routine resolved.ingress ≡ true
    → is_operational b.twin_car.current_state ≡ true
    → IsFree is_tell (commit_resolved_turn env resolved b)
commit_tells_nothing env resolved b h k =
    let v =
      run_to_quiescence-TurnIsSmooth b.twin_car.current_state b.twin_car.context resolved.ingress
        resolved.now resolved.zone_replies h k in
    let hops = Turn.commit_resolved_turn b.twin_car.current_state b.twin_car.context resolved in
    commit-IsFree is_tell is_tell-IsOutward env resolved b v.last v.is_last
      (actions_tell_nothing env (merged_actions hops) v.switches_nothing)

-- No action asks the actuation manager for a command.
abbrev pub has_request : List DomainAction → Bool
has_request [] = false
has_request (DomainAction.request_front_headlamp_on ∷ more) = true
has_request (DomainAction.request_front_headlamp_off ∷ more) = true
has_request (DomainAction.request_wiper_start ∷ more) = true
has_request (DomainAction.request_wiper_stop ∷ more) = true
has_request (_ ∷ more) = has_request more

pub has_request-append :
    (xs ys : List DomainAction) → has_request xs ≡ false → has_request (xs ++ ys) ≡ has_request ys
has_request-append [] ys h = refl
has_request-append (DomainAction.request_front_headlamp_on ∷ xs) ys h = cc
has_request-append (DomainAction.request_front_headlamp_off ∷ xs) ys h = cc
has_request-append (DomainAction.request_wiper_start ∷ xs) ys h = cc
has_request-append (DomainAction.request_wiper_stop ∷ xs) ys h = cc
has_request-append (_ ∷ xs) ys h = has_request-append xs ys h

actions_command_nothing :
    (env : Env) (actions : List DomainAction)
    → has_lifecycle actions ≡ false
    → has_request actions ≡ false
    → All (λ a. (b : Brain) → IsFree is_command (dispatch env a b)) actions
unfolding dispatch execute
actions_command_nothing env [] h k = tt
actions_command_nothing env (DomainAction.start_assemblies as' ∷ actions) h k = cc
actions_command_nothing env (DomainAction.stop_assemblies as' ∷ actions) h k = cc
actions_command_nothing env (DomainAction.request_front_headlamp_on ∷ actions) h k = cc
actions_command_nothing env (DomainAction.request_front_headlamp_off ∷ actions) h k = cc
actions_command_nothing env (DomainAction.request_wiper_start ∷ actions) h k = cc
actions_command_nothing env (DomainAction.request_wiper_stop ∷ actions) h k = cc
actions_command_nothing env (DomainAction.log_warning w ∷ actions) h k =
    (λ b. diag-free is_command is_command-IsOutward env _, actions_command_nothing env actions h k)
actions_command_nothing env (action ∷ actions) h k =
    (λ b. refl, actions_command_nothing env actions h k)

-- The commit of a routine event in an operational mode whose turn asks for none sends no command.
pub commit_commands_nothing :
    (env : Env) (resolved : ResolvedTurn) (b : Brain)
    → is_routine resolved.ingress ≡ true
    → is_operational b.twin_car.current_state ≡ true
    → (let c = b.twin_car.context in
        has_request (merged_actions (Turn.commit_resolved_turn b.twin_car.current_state c resolved))
        ≡ false)
    → IsFree is_command (commit_resolved_turn env resolved b)
commit_commands_nothing env resolved b h k none_asked =
    let v =
      run_to_quiescence-TurnIsSmooth b.twin_car.current_state b.twin_car.context resolved.ingress
        resolved.now resolved.zone_replies h k in
    let hops = Turn.commit_resolved_turn b.twin_car.current_state b.twin_car.context resolved in
    commit-IsFree is_command is_command-IsOutward env resolved b v.last v.is_last
      (actions_command_nothing env (merged_actions hops) v.switches_nothing none_asked)
