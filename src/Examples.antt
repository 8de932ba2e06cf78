-- ===== src/Examples.antt =====
-- Concrete runs of the modelled code, and the theorems at concrete inputs.
mod Core
mod Lamps
mod Turns
mod Runtime
mod Edges
mod Wire
mod Traffic
mod Worlds
mod Exchanges
use sdv_simulation.Prelude.{◌==◌, ℕ, true, false, List, [], ◌∷◌, Option, none, some}
use sdv_simulation.Physics.{Instant, from_secs}
use sdv_simulation.Modes.{FsmState, AssemblyId}
use sdv_simulation.Zones.{VehicleContext}
use sdv_simulation.Zones
use sdv_simulation.Zones.Powertrain.{uniform}
use sdv_simulation.Zones.Headlamp.{HeadlampState, HeadlampContext}
use sdv_simulation.Zones.Wiper
use sdv_simulation.Fsm.Machineries.{FsmEvent}
use sdv_simulation.Twin.{DigitalTwinCar, ZoneMessage}
use sdv_simulation.Zones.Headlamp.{HeadlampMessage}
use sdv_simulation.Barrier.{TurnBarrier, add_pending_zone}
use sdv_simulation.Barrier
use sdv_simulation.Barrier.Wait
use sdv_simulation.Barrier.Entry.{waiting}
use sdv_simulation.Actuation
use sdv_simulation.Brain.{Env, Brain, StatusPort, tell_back_timer, TransitionSinkError, full}

-- At 800 rpm and 91 km/h, in the dark.
abbrev rolling : VehicleContext
rolling = record Zones.default { powertrain = record { wheel_rpm = uniform 800; speed_kph = 91 } }

-- At 1500 rpm and 171 km/h.
abbrev racing : VehicleContext
racing = record Zones.default { powertrain = record { wheel_rpm = uniform 1500; speed_kph = 171 } }

abbrev lamp : HeadlampState → Option Instant → HeadlampContext
lamp s since = record { state = s; ack_pending_since = since }

-- All tells arrive, the ledger's sink refuses record 2, and the clock counts its readings.
abbrev world : Env
world = record {
  clock = λ n. n;
  zone_accepts = λ m t k. true;
  transition_sink = some (λ n. elim (n == 2) [ true ↦ some full | false ↦ none ]);
  has_diagnostic_sink = true;
  log_timer_tick = false;
  status_port = StatusPort.listening;
}

abbrev car : FsmState → VehicleContext → DigitalTwinCar
car s c = record { identity = 86 ∷ 49 ∷ []; current_state = s; context = c }

-- The barrier of turn 1, which waits for the headlamp.
abbrev headlamp_barrier : TurnBarrier
headlamp_barrier =
    add_pending_zone AssemblyId.headlamp (ZoneMessage.headlamp (HeadlampMessage.ambient_lux 100))
      (Wait.new 1) (tell_back_timer AssemblyId.headlamp 1 0)
      (Barrier.new 1 (FsmEvent.update_ambient_lux 100) 0)

-- Driving, with that barrier at the head of the queue.
abbrev waiting_brain : Brain
waiting_brain = record {
  twin_car = car FsmState.driving rolling;
  next_turn_id = 2;
  barrier_queue = waiting headlamp_barrier ∷ [];
  next_record_seq = 1;
  session_epoch = record { started_at_instant = 0; started_at_unix = 1000 };
  actuation_manager = Actuation.default;
  clock_reads = 0;
}
