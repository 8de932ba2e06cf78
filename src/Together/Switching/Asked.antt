-- ===== src/Together/Switching/Asked.antt =====
-- The key that switches the car on or off, which tells both assemblies:
-- virtual_car_actor.rs, headlamp_actor.rs and wiper_actor.rs of crates/common/src/twin_runtime.
use sdv_simulation.Prelude.{Bool, true, false, List, [], ◌∷◌, ◌++◌, none, ◌≡◌, refl, ap, ◌∙◌}
use sdv_simulation.Prelude.Result.{ok}
use sdv_simulation.Modes.{AssemblyId, all_assemblies}
use sdv_simulation.Zones.{VehicleContext, is_healthy}
use sdv_simulation.Fsm.{StepResult}
use sdv_simulation.Twin.{DigitalTwinCarVocabulary}
use sdv_simulation.Turn.Zone.{zone_message_for_event, user_event_to_zone_tell}
use sdv_simulation.Turn.Quiescence.{endangered}
use sdv_simulation.Brain.{Env, Brain, Outcome, Effect, behind, and_then}
use sdv_simulation.Brain.Commit.{dispatch_all, report}
use sdv_simulation.Brain.Handle.{handle, tick_diag}
use sdv_simulation.Brain.Landing.{acting, recorded, hop_of, IsSingle, commit_of_one_hop}
use sdv_simulation.Brain.Success.{IsReachable}
use sdv_simulation.Together.Exchange.{opened, local_turn, passes}
use sdv_simulation.Together.Switching.{
  key, resting, reached, preparing, order, key_hop, ordered_effects, ordered_brain,
  order_tells_both,
}

pub calm_preparing :
    (up : Bool) (l : List AssemblyId) (c : VehicleContext) → endangered (preparing up l) c ≡ false
calm_preparing true l c = refl
calm_preparing false l c = refl

pub calm_reached : (up : Bool) (c : VehicleContext) → endangered (reached up) c ≡ false
calm_reached true c = refl
calm_reached false c = refl

key_tells_no_zone : (up : Bool) → zone_message_for_event (key up) (resting up) ≡ none
unfolding zone_message_for_event user_event_to_zone_tell
key_tells_no_zone true = refl
key_tells_no_zone false = refl

key_is_no_heartbeat : (env : Env) (up : Bool) → tick_diag env (key up) ≡ []
key_is_no_heartbeat env true = refl
key_is_no_heartbeat env false = refl

module _ (env : Env) (up : Bool) (c : Brain) where
  abbrev pub idle : Brain
  idle = record c { barrier_queue = [] }

  abbrev pub hop : StepResult
  hop = hop_of (local_turn env (key up) idle) (opened idle)

  -- The brain once it has told both assemblies.
  abbrev pub both_told : Brain
  both_told = ordered_brain env up (acting hop (opened idle))

  abbrev pub shown : Outcome
  shown =
      report env c.twin_car.current_state c.twin_car.context.headlamp.state
        hop.modified_ctx.headlamp.state both_told

  abbrev pub key_effects : List Effect
  key_effects =
      ((recorded env hop (opened idle) ++ []) ++ ordered_effects env up (acting hop (opened idle)))
      ++ shown.effects

  pub key_hop_here :
      c.twin_car.current_state ≡ resting up
      → (up ≡ true → is_healthy c.twin_car.context ≡ true)
      → (hop.next_state ≡ preparing up all_assemblies)
        × (hop.modified_ctx ≡ c.twin_car.context)
        × (hop.actions ≡ order up ∷ [])
  key_hop_here here healthy = rw here (key_hop up c.twin_car.context _ _ healthy)

  pub key_turned :
      IsReachable env
      → c.twin_car.current_state ≡ resting up
      → (up ≡ true → is_healthy c.twin_car.context ≡ true)
      → handle env (DigitalTwinCarVocabulary.fsm (key up)) idle
        ≡ record { brain = both_told; effects = key_effects; result = ok tt }
  key_turned reachable here healthy =
      let (mode, same, asks) = key_hop_here here healthy in
      let untold = key_tells_no_zone up in
      let calm : IsSingle (local_turn env (key up) idle) (opened idle) =
        ap (λ s. endangered s hop.modified_ctx) mode
        ∙ calm_preparing up all_assemblies hop.modified_ctx in
      passes env (key up) idle refl (rw here untold) (key_is_no_heartbeat env up)
      ∙ commit_of_one_hop env (local_turn env (key up) idle) (opened idle) calm
      ∙ ap
          (λ o.
            and_then
              (report env c.twin_car.current_state c.twin_car.context.headlamp.state
                hop.modified_ctx.headlamp.state)
              (behind (recorded env hop (opened idle) ++ []) o))
          (ap (λ actions. dispatch_all env (actions ++ []) (acting hop (opened idle))) asks
            ∙ order_tells_both env up (acting hop (opened c)) reachable)
