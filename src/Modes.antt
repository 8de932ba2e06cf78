-- ===== src/Modes.antt =====
-- The operational modes and the assemblies: crates/common/src/fsm/machineries.rs, and the public
-- `VehicleState` of domain_types.rs. A BTreeSet of assemblies is the list of its members in order.
use sdv_simulation.Prelude.{Bool, true, false, List, [], ◌∷◌, ◌&&◌, ◌==◌}
use sdv_simulation.Physics.{Instant}

pub data AssemblyId : Type 0 where
  headlamp wiper : AssemblyId

-- The derived `==` of `AssemblyId`.
abbrev pub assembly_eq : AssemblyId → AssemblyId → Bool
assembly_eq AssemblyId.headlamp AssemblyId.headlamp = true
assembly_eq AssemblyId.wiper AssemblyId.wiper = true
assembly_eq _ _ = false

abbrev pub all_assemblies : List AssemblyId
all_assemblies = AssemblyId.headlamp ∷ AssemblyId.wiper ∷ []

pub data Operational : Type 0 where
  lighting_unsafe : Operational

pub data FsmState : Type 0 where
  off : FsmState
  preparing_to_start : List AssemblyId → FsmState
  idle : FsmState
  driving : FsmState
  driving_dangerously : FsmState
  extreme_operation_warning : Instant → FsmState
  preparing_to_stop : List AssemblyId → FsmState

abbrev pub assemblies_eq : List AssemblyId → List AssemblyId → Bool
assemblies_eq [] [] = true
assemblies_eq (a ∷ as') (b ∷ bs) = assembly_eq a b && assemblies_eq as' bs
assemblies_eq _ _ = false

-- The derived `==` of `FsmState`.
abbrev pub state_eq : FsmState → FsmState → Bool
state_eq FsmState.off FsmState.off = true
state_eq (FsmState.preparing_to_start a) (FsmState.preparing_to_start b) = assemblies_eq a b
state_eq FsmState.idle FsmState.idle = true
state_eq FsmState.driving FsmState.driving = true
state_eq FsmState.driving_dangerously FsmState.driving_dangerously = true
state_eq (FsmState.extreme_operation_warning a) (FsmState.extreme_operation_warning b) = a == b
state_eq (FsmState.preparing_to_stop a) (FsmState.preparing_to_stop b) = assemblies_eq a b
state_eq _ _ = false

pub data VehicleState : Type 0 where
  off preparing_to_start idle driving extreme_operation_warning critical : VehicleState
  preparing_to_stop : VehicleState

-- `impl From<&FsmState> for VehicleState`.
unfoldable pub vehicle_state_of : FsmState → VehicleState
vehicle_state_of FsmState.off = VehicleState.off
vehicle_state_of (FsmState.preparing_to_start _) = VehicleState.preparing_to_start
vehicle_state_of FsmState.idle = VehicleState.idle
vehicle_state_of FsmState.driving = VehicleState.driving
vehicle_state_of FsmState.driving_dangerously = VehicleState.critical
vehicle_state_of (FsmState.extreme_operation_warning _) = VehicleState.extreme_operation_warning
vehicle_state_of (FsmState.preparing_to_stop _) = VehicleState.preparing_to_stop
