-- ===== src/Together/Switching/Completes.antt =====
-- That switching the car on or off comes to its end when the assemblies answer:
-- virtual_car_actor.rs, headlamp_actor.rs and wiper_actor.rs of crates/common/src/twin_runtime.
use sdv_simulation.Prelude.{Bool, true, false, [], ◌≡◌, sym, ap, ◌∙◌, subst, if◌then◌else◌}
use sdv_simulation.Prelude.Result.{ok}
use sdv_simulation.Modes.{AssemblyId}
use sdv_simulation.Zones.{VehicleContext, is_healthy}
use sdv_simulation.Zones.Headlamp.{HeadlampState, HeadlampContext}
use sdv_simulation.Brain.{Env, Brain, Outcome, advance_id, tell_back_timer}
use sdv_simulation.Brain.Success.{IsReachable}
use sdv_simulation.Together.{Twinlets, Agree}
use sdv_simulation.Together.Exchange.{idle_brain}
use sdv_simulation.Together.Runs.{round}
use sdv_simulation.Together.Switching.{key, resting, reached, lamp_told_quietly, both_delivered}
use sdv_simulation.Together.Switching.Answers.{ordering, told_at, told_by_key, answers_switch}
use sdv_simulation.Together.Switching.Asked.{idle, key_hop_here, key_turned}

-- The switch is over: no error, the mode asked for, nothing waits, and the lamp is on call or off.
pub record IsSwitched (up : Bool) (o : Outcome) (z : Twinlets) : Type 0 where
  pub success : o.result ≡ ok tt
  pub mode : o.brain.twin_car.current_state ≡ reached up
  pub queue : o.brain.barrier_queue ≡ []
  pub lamp :
      o.brain.twin_car.context.headlamp.state
      ≡ (if up then HeadlampState.ready else HeadlampState.off)
  pub agree : Agree o.brain z

module _ (env : Env) (up : Bool) (c : Brain) (z : Twinlets) where
  key_completes :
      IsReachable env
      → c.twin_car.current_state ≡ resting up
      → (up ≡ true → is_healthy c.twin_car.context ≡ true)
      → z.headlamp.silent ≡ false
      → z.wiper.silent ≡ false
      → let (o, z') = round env (key up) (idle env up c) z in IsSwitched up o z'
  key_completes reachable here healthy lamp_speaks wiper_speaks =
      let (mode, same, asks) = key_hop_here env up c here healthy in
      let (success, none_waits, ends, seen) = answers_switch env up c z reachable mode in
      let t = (ordering env up c z).next_turn_id in
      let (told_back, lamp_is, lamp_still, wiper_is, wiper_still) =
        both_delivered up t (advance_id t) (told_at env up c z)
          (tell_back_timer AssemblyId.headlamp t 0)
          (tell_back_timer AssemblyId.wiper (advance_id t) 0) z lamp_speaks wiper_speaks in
      let lamp_seen = ap (λ (x : VehicleContext). x.headlamp) seen in
      rw (key_turned env up c reachable here healthy, told_by_key env up c z, told_back)
        (record {
          success = success;
          mode = ends;
          queue = none_waits;
          lamp =
              ap (λ (x : HeadlampContext). x.state) lamp_seen
              ∙ (lamp_told_quietly up z.headlamp.ctx (told_at env up c z)).1;
          agree = record {
            headlamp_speaks = lamp_still;
            wiper_speaks = wiper_still;
            same_headlamp = lamp_is ∙ sym lamp_seen;
            same_wiper = wiper_is ∙ sym (ap (λ (x : VehicleContext). x.wiper) seen);
          };
        })

-- While every zone is reachable, a brain that waits for nothing, with the car off and healthy or
-- with the car idle, and twinlets that answer complete the switch that the key asks for: both
-- assemblies are told, both answer, and after the two answers, without an error, the car is idle
-- or off, nothing waits, the lamp is ready or off, and brain and twinlets agree on both zones,
-- whether they agreed before or not.
pub switching_completes :
    (env : Env) (up : Bool) (b : Brain) (z : Twinlets)
    → IsReachable env
    → b.barrier_queue ≡ []
    → b.twin_car.current_state ≡ resting up
    → (up ≡ true → is_healthy b.twin_car.context ≡ true)
    → z.headlamp.silent ≡ false
    → z.wiper.silent ≡ false
    → let (o, z') = round env (key up) b z in IsSwitched up o z'
switching_completes env up b z reachable idle here healthy lamp wiper =
    subst (λ (x : Brain). let (o, z') = round env (key up) x z in IsSwitched up o z')
      (idle_brain b idle) (key_completes env up b z reachable here healthy lamp wiper)
