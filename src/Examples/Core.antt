-- ===== src/Examples/Core.antt =====
-- The operational FSM and the speed formula at concrete inputs.
use sdv_simulation.Prelude.{List, [], ◌∷◌, ◌≡◌, refl}
use sdv_simulation.Physics.{rounded_speed_kph}
use sdv_simulation.Modes.{FsmState, AssemblyId, all_assemblies}
use sdv_simulation.Zones
use sdv_simulation.Fsm.Machineries.{FsmEvent}
use sdv_simulation.Fsm.{step}
use sdv_simulation.Fsm.Modes.{◌⟶◌, step-⟶}
use sdv_simulation.Fsm.Countdown.{Input, Phase, Completes, countdown-Completes}

speed_at_800 : rounded_speed_kph 800 ≡ 91
unfolding rounded_speed_kph
speed_at_800 = refl

step-⟶_example :
    FsmState.idle ⟶ (step FsmState.idle Zones.default (FsmEvent.update_rpm 1500) 0).next_state
step-⟶_example = step-⟶ FsmState.idle Zones.default (FsmEvent.update_rpm 1500) 0

abbrev at_zero : FsmEvent → Input
at_zero e = record { event = e; ctx = Zones.default; now = 0 }

-- The wiper's acknowledgement, twice, with a heartbeat between.
abbrev wiper_twice : List Input
wiper_twice =
    at_zero (FsmEvent.assembly_zone_ready AssemblyId.wiper)
    ∷ at_zero FsmEvent.timer_tick
    ∷ at_zero (FsmEvent.assembly_zone_ready AssemblyId.wiper)
    ∷ []

abbrev both : List Input
both = at_zero (FsmEvent.assembly_zone_ready AssemblyId.headlamp) ∷ wiper_twice

countdown-Completes_example : Completes Phase.shutdown all_assemblies both
countdown-Completes_example = countdown-Completes Phase.shutdown all_assemblies both (λ h. cc) refl
