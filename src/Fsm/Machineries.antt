-- ===== src/Fsm/Machineries.antt =====
-- Events and actions of the operational FSM: crates/common/src/fsm/machineries.rs.
use sdv_simulation.Prelude.{ℕ, List, Bool, true, false}
use sdv_simulation.Modes.{AssemblyId, Operational}
use sdv_simulation.Logs.{LogText, FrontHeadlampSwitchDirection, FrontHeadlampIncompleteCause}

pub data FsmEvent : Type 0 where
  power_on power_off : FsmEvent
  update_rpm update_ambient_lux : ℕ → FsmEvent
  front_headlamp_on_ack front_headlamp_off_ack : FsmEvent
  front_headlamp_actuation_incomplete :
      FrontHeadlampSwitchDirection → FrontHeadlampIncompleteCause → FsmEvent
  timer_tick : FsmEvent
  internal : Operational → FsmEvent
  assembly_zone_ready : AssemblyId → FsmEvent
  rains_started rains_stopped : FsmEvent

pub data FsmAction : Type 0 where
  start_buzzer stop_buzzer : FsmAction
  log_warning : LogText → FsmAction
  publish_state_sync : FsmAction
  start_assemblies stop_assemblies : List AssemblyId → FsmAction
  none' : FsmAction

pub data DomainAction : Type 0 where
  start_buzzer stop_buzzer publish_state_sync : DomainAction
  log_warning : LogText → DomainAction
  request_front_headlamp_on request_front_headlamp_off : DomainAction
  request_wiper_start request_wiper_stop : DomainAction
  start_assemblies stop_assemblies : List AssemblyId → DomainAction

-- `matches!(action, StartAssemblies(_) | StopAssemblies(_))`, negated: what the ledger keeps.
abbrev pub is_recorded : DomainAction → Bool
is_recorded (DomainAction.start_assemblies _) = false
is_recorded (DomainAction.stop_assemblies _) = false
is_recorded _ = true
