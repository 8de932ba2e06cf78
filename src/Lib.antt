-- ===== src/Lib.antt =====
-- The digital twin of a car, written in Rust (crates/common, crates/gateway,
-- crates/vehicle_device_bus), as functions and step relations, with the theorems that it rests on.
--
-- How the parts interact. Frames of the bus become physical events (Ingress) and, as FSM events,
-- messages to the brain actor (Brain). The brain opens a turn for each event: it tells the zone that
-- the event is for and waits in a reorder buffer (Barrier), or commits at once. The zone twinlets
-- (Twinlet) run the zones' contexts (Zones) and tell their replies back; a silent zone is told again
-- and then given up. A complete turn at the head of the buffer is committed (Brain.Commit): zones are
-- merged, the operational FSM steps, detectors may add an internal event until nothing is left to do
-- (Turn, Fsm), each hop is published to the ledger (Published), and the merged actions go to the
-- actuation manager (Actuation) or start lifecycle tells to the assemblies. The gateway (Gateway)
-- publishes the commands as frames (Can) and remembers the one that is pending (Bus); the actuator
-- programs (Actuators) obey and respond; the gateway's reader correlates the responses, takes the
-- telemetry that the emulator (Emulator) sends, and submits both to the twin (Controller). What the
-- brain reports is shown as diagnostics (Diagnostics) and ledger lines (TransitionLog).
--
-- Files and sources:
--   Physics      crates/common/src/vehicle_physics, and the rounding of vehicle_state/powertrain.rs
--   Zones        crates/common/src/vehicle_state (Powertrain, Headlamp, Wiper; health and visibility)
--   Logs         crates/common/src/front_headlamp_log.rs and the direction and cause types
--   Modes, Fsm   crates/common/src/fsm (machineries.rs, transition_map.rs, step.rs)
--   Twin         crates/common/src/digital_twin (mod.rs; Laws is car_behaviour_checker.rs)
--   Turn         crates/common/src/twin_runtime/twin_turn.rs, zone_turn.rs, outcome_map.rs,
--                zone_replies.rs and detectors
--   Barrier      crates/common/src/twin_runtime/turn_barrier.rs, zone_tell_back.rs, constants.rs
--   Brain        crates/common/src/twin_runtime/controller/virtual_car_actor.rs
--   Twinlet      crates/common/src/twin_runtime/headlamp_actor.rs, wiper_actor.rs
--   Together     the brain and its twinlets with the messages between them: the same files and
--                virtual_car_actor.rs
--   Actuation    crates/common/src/twin_runtime/controller/actuation_manager.rs,
--                actuation_contract.rs
--   Published    crates/common/src/published.rs
--   Ingress      crates/common/src/signals.rs, domain_types.rs,
--                twin_runtime/connectors/physical_to_digital.rs,
--                crates/gateway/src/ingress/mapping.rs
--   Bus          crates/vehicle_device_bus/src/can/wire_kinds.rs, devices/front_headlamp/codec.rs
--                and policy.rs
--   Can          crates/common/src/signals.rs (Signals), and can.rs of the two devices under
--                crates/vehicle_device_bus/src/devices (Headlamp; Wiper, with its codec.rs)
--   Actuators    crates/front_headlamp_actuator/src/main.rs, crates/wiper_actuator/src/main.rs
--   Controller   crates/common/src/twin_runtime/controller/vehicle_controller.rs
--   Gateway      crates/gateway/src/gateway_runtime.rs
--   TransitionLog  crates/gateway/src/transition_log.rs
--   Diagnostics  crates/common/src/diagnostic/mod.rs
--   Emulator     crates/emulator/src (main.rs, car_physics.rs, models)
--   AssemblyMap, Prelude: maps keyed by assembly, shared names, tests and lemmas, and the f64
--                arithmetic of a speed's frame (Double)
--   Examples     runs of the code, and the theorems at concrete inputs
--
-- Functions keep the names of the source. A `&mut self` method returns the new value; a handler of
-- the brain returns the next state, its effects in order and its result, and reads the clock, the
-- reachability of zones and the answers of sinks from an environment. What other crates offer is a
-- record of operations that the definitions take: CanBus of socketcan, with the laws IsLawful (eleven
-- bits of identifier and eight bytes always make a frame that holds them), ActorRef of ractor, Floats
-- and F32 of the floating-point types; Examples.Wire instantiates each. A random number that the code
-- draws is an argument. Instants and durations are
-- nanoseconds. A set of assemblies is the list of its members in order. Integers of fixed width
-- saturate, wrap or are cut where the code does so.
--
-- Bounds. The quiescence loop counts down from MAX_QUIESCENCE_HOPS, as the code does. The drain loop
-- counts down the entries that the queue has when it starts: a commit only pushes incomplete ones.
-- A double is fitted to the least of its 2046 exponents that holds it, and is infinite above them.
--
-- Not modelled: sockets, tasks, spawning and timers of the runtime (a timeout is a message, and a
-- loop is its round, over a list where its end matters), the printed form of numbers and Debug texts,
-- serialisation, the gateway's start-up and banners, and the emulator's speed model, which nothing
-- uses.
pub mod Prelude
pub mod Physics
pub mod Modes
pub mod Logs
pub mod Zones
pub mod Fsm
pub mod AssemblyMap
pub mod Twin
pub mod Turn
pub mod Barrier
pub mod Published
pub mod Actuation
pub mod Ingress
pub mod Bus
pub mod Can
pub mod Actuators
pub mod Controller
pub mod Gateway
pub mod Emulator
pub mod Brain
pub mod Diagnostics
pub mod Together
pub mod TransitionLog
pub mod Twinlet
pub mod Examples
