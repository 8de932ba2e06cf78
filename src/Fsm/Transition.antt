-- ===== src/Fsm/Transition.antt =====
-- The transition table and the output function: crates/common/src/fsm/transition_map.rs. The
-- match on the event is a function of its own for each mode.
use sdv_simulation.Prelude.{
  ◌++◌, Bool, true, false, not, ◌&&◌, List, [], ◌∷◌, Option, none, some, ltb, leb, filter, is_empty,
  if◌then◌else◌,
}
use sdv_simulation.Physics.{
  Instant, duration_since, from_secs, rpm_driving_threshold, rpm_stress_duration_threshold_secs,
  lux_on_threshold, speed_threshold_exceeded, extreme_operation_active,
  speed_threshold_warning_message, extreme_operation_warning_message,
}
use sdv_simulation.Modes.{AssemblyId, FsmState, Operational, all_assemblies, assembly_eq, state_eq}
use sdv_simulation.Logs.{literal}
use sdv_simulation.Zones.{VehicleContext, is_healthy}
use sdv_simulation.Zones.Powertrain.{primary_rpm, is_stationary, is_operational_warning_active}
use sdv_simulation.Zones.Headlamp.{HeadlampState}
use sdv_simulation.Fsm.Machineries.{FsmEvent, FsmAction}

pub data TransitionNote : Type 0 where
  rejected_power_off : TransitionNote

pub record TransitionResult : Type 0 where
  pub next_state : FsmState
  pub note : Option TransitionNote

abbrev pub go : FsmState → TransitionResult
go s = record { next_state = s; note = none }

abbrev pub reject : FsmState → TransitionResult
reject s = record { next_state = s; note = some rejected_power_off }

-- `remaining.iter().copied().filter(|a| a != assembly_id).collect()`.
abbrev pub without : AssemblyId → List AssemblyId → List AssemblyId
without a = filter (λ b. not (assembly_eq b a))

operational_warning_recovery_ready : Instant → Instant → VehicleContext → Bool
operational_warning_recovery_ready began_at now ctx =
    leb (from_secs rpm_stress_duration_threshold_secs) (duration_since now began_at)
    && not (is_operational_warning_active ctx.powertrain)

abbrev lamp_is_on : HeadlampState → Bool
lamp_is_on HeadlampState.on = true
lamp_is_on _ = false

unfoldable pub from_off : FsmEvent → VehicleContext → TransitionResult
from_off FsmEvent.power_on ctx =
    if is_healthy ctx then go (FsmState.preparing_to_start all_assemblies) else go FsmState.off
from_off FsmEvent.power_off ctx = reject FsmState.off
from_off _ ctx = go FsmState.off

from_preparing_to_start : List AssemblyId → FsmEvent → TransitionResult
from_preparing_to_start remaining (FsmEvent.assembly_zone_ready a) =
    let new_remaining = without a remaining in
    if is_empty new_remaining
    then go FsmState.idle
    else go (FsmState.preparing_to_start new_remaining)
from_preparing_to_start remaining _ = go (FsmState.preparing_to_start remaining)

from_idle : FsmEvent → TransitionResult
from_idle FsmEvent.power_off = go (FsmState.preparing_to_stop all_assemblies)
from_idle (FsmEvent.update_rpm rpm) =
    if ltb rpm_driving_threshold rpm then go FsmState.driving else go FsmState.idle
from_idle _ = go FsmState.idle

unfoldable pub from_driving : FsmEvent → VehicleContext → Instant → TransitionResult
from_driving (FsmEvent.internal Operational.lighting_unsafe) ctx now =
    go FsmState.driving_dangerously
from_driving FsmEvent.power_off ctx now = reject FsmState.driving
from_driving _ ctx now =
    if is_operational_warning_active ctx.powertrain
    then go (FsmState.extreme_operation_warning now)
    else if is_stationary ctx.powertrain
    then go FsmState.idle
    else go FsmState.driving

from_driving_dangerously : FsmEvent → VehicleContext → TransitionResult
from_driving_dangerously FsmEvent.power_off ctx = reject FsmState.driving_dangerously
from_driving_dangerously _ ctx =
    if is_stationary ctx.powertrain
    then go FsmState.idle
    else if lamp_is_on ctx.headlamp.state
    then go FsmState.driving
    else if ltb lux_on_threshold ctx.visibility.ambient_lux
    then go FsmState.driving
    else go FsmState.driving_dangerously

from_warning : Instant → FsmEvent → VehicleContext → Instant → TransitionResult
unfolding operational_warning_recovery_ready
from_warning began_at FsmEvent.timer_tick ctx now =
    if operational_warning_recovery_ready began_at now ctx
    then go (if is_stationary ctx.powertrain then FsmState.idle else FsmState.driving)
    else go (FsmState.extreme_operation_warning began_at)
from_warning began_at FsmEvent.power_off ctx now =
    reject (FsmState.extreme_operation_warning began_at)
from_warning began_at _ ctx now = go (FsmState.extreme_operation_warning began_at)

unfoldable pub from_preparing_to_stop : List AssemblyId → FsmEvent → TransitionResult
from_preparing_to_stop remaining (FsmEvent.assembly_zone_ready a) =
    let new_remaining = without a remaining in
    if is_empty new_remaining
    then go FsmState.off
    else go (FsmState.preparing_to_stop new_remaining)
from_preparing_to_stop remaining _ = go (FsmState.preparing_to_stop remaining)

unfoldable pub transition : FsmState → FsmEvent → VehicleContext → Instant → TransitionResult
unfolding from_off from_preparing_to_start from_idle from_driving from_driving_dangerously
    from_warning from_preparing_to_stop
transition FsmState.off e ctx now = from_off e ctx
transition (FsmState.preparing_to_start remaining) e ctx now = from_preparing_to_start remaining e
transition FsmState.idle e ctx now = from_idle e
transition FsmState.driving e ctx now = from_driving e ctx now
transition FsmState.driving_dangerously e ctx now = from_driving_dangerously e ctx
transition (FsmState.extreme_operation_warning began_at) e ctx now = from_warning began_at e ctx now
transition (FsmState.preparing_to_stop remaining) e ctx now = from_preparing_to_stop remaining e

-- The warnings that `output` pushes behind `StartBuzzer`.
warnings : VehicleContext → List FsmAction
warnings ctx =
    (if speed_threshold_exceeded ctx.powertrain.speed_kph
      then FsmAction.log_warning (literal speed_threshold_warning_message) ∷ []
      else [])
    ++ (if extreme_operation_active (primary_rpm ctx.powertrain) ctx.powertrain.speed_kph
        then FsmAction.log_warning (literal extreme_operation_warning_message) ∷ []
        else [])

unfoldable pub output : FsmState → FsmState → VehicleContext → List FsmAction
unfolding warnings
output FsmState.off (FsmState.preparing_to_start _) ctx =
    FsmAction.start_assemblies all_assemblies ∷ []
output FsmState.idle (FsmState.preparing_to_stop _) ctx =
    FsmAction.stop_assemblies all_assemblies ∷ []
output (FsmState.preparing_to_start _) (FsmState.preparing_to_start _) ctx = []
output (FsmState.preparing_to_stop _) (FsmState.preparing_to_stop _) ctx = []
output FsmState.driving FsmState.driving_dangerously ctx = FsmAction.start_buzzer ∷ []
output FsmState.driving_dangerously FsmState.driving ctx = FsmAction.stop_buzzer ∷ []
output FsmState.driving_dangerously FsmState.idle ctx = FsmAction.stop_buzzer ∷ []
output FsmState.driving (FsmState.extreme_operation_warning _) ctx =
    FsmAction.start_buzzer ∷ warnings ctx
output (FsmState.extreme_operation_warning _) FsmState.driving ctx = FsmAction.stop_buzzer ∷ []
output (FsmState.extreme_operation_warning _) FsmState.idle ctx = FsmAction.stop_buzzer ∷ []
output old new ctx = if state_eq old new then [] else FsmAction.publish_state_sync ∷ []
