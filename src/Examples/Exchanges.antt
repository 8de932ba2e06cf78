-- ===== src/Examples/Exchanges.antt =====
-- Brain and twinlets together at concrete inputs.
use sdv_simulation.Prelude.{true, false, List, [], ◌∷◌, ◌++◌, none, ◌≡◌, refl}
use sdv_simulation.Prelude.Result.{ok}
use sdv_simulation.Modes.{FsmState, AssemblyId}
use sdv_simulation.Zones.{VehicleContext}
use sdv_simulation.Zones
use sdv_simulation.Zones.Headlamp.{HeadlampState, HeadlampMessage, on_receiving_message}
use sdv_simulation.Fsm.Machineries.{FsmEvent}
use sdv_simulation.Twin.{ZoneMessage, DigitalTwinCarVocabulary}
use sdv_simulation.Turn.Zone.{zone_message_for_event}
use sdv_simulation.Brain.{Brain, did, read_clock}
use sdv_simulation.Brain.Handle.{handle}
use sdv_simulation.Brain.Lacks.{any}
use sdv_simulation.Brain.Tells.{is_command}
use sdv_simulation.Together.{Twinlets, Agree, deliver_all}
use sdv_simulation.Together.Round.{IsLocalRound, round_is_local}
use sdv_simulation.Together.Runs.{round, rounds, local_rounds, observed, rounds_refine}
use sdv_simulation.Together.Switching.{key}
use sdv_simulation.Together.Switching.Completes.{IsSwitched, switching_completes}
use sdv_simulation.Together.Switching.Window.{IsMissed, reading_in_window_untold}
use sdv_simulation.Together.Lost.{late_answer_loses_command}
use sdv_simulation.Examples.{rolling, lamp, car, world, waiting_brain}

abbrev dusk : VehicleContext
dusk = record rolling { headlamp = lamp HeadlampState.ready none }

abbrev settled_brain : Brain
settled_brain = record waiting_brain { twin_car = car FsmState.driving dusk; barrier_queue = [] }

abbrev twinlets : Twinlets
twinlets = record {
  headlamp = record {
    ctx = lamp HeadlampState.ready none;
    silent = false;
    knows_brain = true;
    ack_timer = none;
  };
  wiper = record { ctx = rolling.wiper; silent = false };
}

agreed : Agree settled_brain twinlets
agreed = record {
  headlamp_speaks = refl;
  wiper_speaks = refl;
  same_headlamp = refl;
  same_wiper = refl;
}

round_is_local_example :
    IsLocalRound world (FsmEvent.update_ambient_lux 100) AssemblyId.headlamp settled_brain twinlets
unfolding zone_message_for_event
round_is_local_example =
    round_is_local world (FsmEvent.update_ambient_lux 100) AssemblyId.headlamp
      (ZoneMessage.headlamp (HeadlampMessage.ambient_lux 100)) settled_brain twinlets refl refl refl
      agreed

-- It gets dark, the lamp is confirmed, the car slows down, and it rains.
abbrev evening : List FsmEvent
evening =
    FsmEvent.update_ambient_lux 100
    ∷ FsmEvent.front_headlamp_on_ack
    ∷ FsmEvent.update_rpm 600
    ∷ FsmEvent.rains_started
    ∷ []

rounds_refine_example :
    let (o, z) = rounds world evening settled_brain twinlets in
    let local = local_rounds world evening settled_brain in
    (o.result ≡ ok tt)
    × (o.brain ≡ local.brain)
    × (observed o.effects ≡ observed local.effects)
    × Agree o.brain z
rounds_refine_example =
    rounds_refine world evening settled_brain twinlets (λ m t k. refl) refl refl
      (refl, (refl, (refl, (refl, tt)))) agreed

late_answer_loses_command_example :
    let asked =
      handle world (DigitalTwinCarVocabulary.fsm (FsmEvent.update_ambient_lux 100)) settled_brain in
    let late =
      handle world
        (DigitalTwinCarVocabulary.zone_tell_back_timeout AssemblyId.headlamp 2 0)
        asked.brain in
    let once = deliver_all asked.effects twinlets in
    let twice = deliver_all late.effects once.0 in
    (first : DigitalTwinCarVocabulary) × (second : DigitalTwinCarVocabulary) × (once.1 ≡ first ∷ [])
    × (twice.1 ≡ second ∷ [])
    × (handle world first late.brain ≡ did [] late.brain)
    × (any is_command (asked.effects ++ late.effects ++ (handle world second late.brain).effects)
        ≡ false)
    × (twice.0.headlamp.ctx
        ≡ (on_receiving_message
            (lamp HeadlampState.ready none)
            (HeadlampMessage.ambient_lux 100)
            (read_clock world settled_brain)).ctx)
    × ((handle world second late.brain).brain.twin_car.context.headlamp ≡ twice.0.headlamp.ctx)
unfolding zone_message_for_event
late_answer_loses_command_example =
    late_answer_loses_command world (FsmEvent.update_ambient_lux 100)
      (HeadlampMessage.ambient_lux 100) settled_brain twinlets (λ m t k. refl) refl refl agreed

-- Off and healthy, with the twinlets' contexts left over from before.
abbrev parked_brain : Brain
parked_brain = record settled_brain { twin_car = car FsmState.off Zones.default }

switching_completes_example :
    let (o, z) = round world (key true) parked_brain twinlets in IsSwitched true o z
unfolding Zones.is_healthy
switching_completes_example =
    switching_completes world true parked_brain twinlets (λ m t k. refl) refl refl (λ up. refl) refl
      refl

reading_in_window_untold_example : IsMissed world 100 parked_brain twinlets
unfolding Zones.is_healthy
reading_in_window_untold_example =
    reading_in_window_untold world 100 parked_brain twinlets (λ m t k. refl) refl refl refl refl
      refl refl
