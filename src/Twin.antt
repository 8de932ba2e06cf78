-- ===== src/Twin.antt =====
-- L3, the twin and its mailbox vocabulary: crates/common/src/digital_twin/mod.rs. The reply port
-- of `GetStatus` is only written to, so the message carries nothing here.
pub mod Laws
pub mod Identity
use sdv_simulation.Prelude.{ℕ, Bool, List, Option, none, some, is_empty, if◌then◌else◌}
use sdv_simulation.Prelude.Result.{Result, ok, err}
use sdv_simulation.Modes.{AssemblyId, FsmState}
use sdv_simulation.Logs.{FrontHeadlampSwitchDirection, FrontHeadlampIncompleteCause}
use sdv_simulation.Zones.{VehicleContext, is_healthy}
use sdv_simulation.Zones.Headlamp.{HeadlampMessage, HeadlampZoneReply}
use sdv_simulation.Zones.Wiper.{WiperMessage, WiperZoneReply}
use sdv_simulation.Fsm.Machineries.{FsmEvent}
use Laws.{LawViolation, verify_state_laws}
use Identity.{Text, trim}

pub data DigitalTwinCarError : Type 0 where
  blank_identity : DigitalTwinCarError

pub record DigitalTwinCar : Type 0 where
  pub identity : Text
  pub current_state : FsmState
  pub context : VehicleContext

unfoldable pub new : Text → FsmState → VehicleContext → Result DigitalTwinCarError DigitalTwinCar
unfolding trim
new identity current_state context =
    let trimmed = trim identity in
    if is_empty trimmed
    then err blank_identity
    else ok (record { identity = trimmed; current_state = current_state; context = context })

abbrev pub apply_step : FsmState → VehicleContext → DigitalTwinCar → DigitalTwinCar
apply_step next_state context car = record car { current_state = next_state; context = context }

-- The error text of `verify_all_invariants`, before it is formatted.
pub data Breach : Type 0 where
  unhealthy : Breach
  unlawful : List LawViolation → Breach

abbrev map_err : Result (List LawViolation) (Unit {0}) → Result Breach (Unit {0})
map_err (ok u) = ok u
map_err (err vs) = err (unlawful vs)

unfoldable pub verify_all_invariants : DigitalTwinCar → Result Breach (Unit {0})
unfolding verify_state_laws
verify_all_invariants car =
    if is_healthy car.context
    then map_err (verify_state_laws car.current_state car.context)
    else err unhealthy

pub record CarSnapshot : Type 0 where
  pub car : DigitalTwinCar
  pub as_of_seq : ℕ

pub data ZoneReply : Type 0 where
  headlamp : HeadlampZoneReply → ZoneReply
  wiper : WiperZoneReply → ZoneReply

abbrev pub as_headlamp : ZoneReply → Option HeadlampZoneReply
as_headlamp (ZoneReply.headlamp r) = some r
as_headlamp (ZoneReply.wiper r) = none

abbrev pub as_wiper : ZoneReply → Option WiperZoneReply
as_wiper (ZoneReply.headlamp r) = none
as_wiper (ZoneReply.wiper r) = some r

pub data ZoneMessage : Type 0 where
  headlamp : HeadlampMessage → ZoneMessage
  wiper : WiperMessage → ZoneMessage

pub data ZoneSpontaneousEvent : Type 0 where
  headlamp :
      FrontHeadlampSwitchDirection
      → FrontHeadlampIncompleteCause
      → HeadlampZoneReply
      → ZoneSpontaneousEvent

pub data DigitalTwinCarVocabulary : Type 0 where
  fsm : FsmEvent → DigitalTwinCarVocabulary
  -- zone_id, turn_id, tell_attempt, reply
  zone_ready : AssemblyId → ℕ → ℕ → ZoneReply → DigitalTwinCarVocabulary
  zone_spontaneous : AssemblyId → ZoneSpontaneousEvent → DigitalTwinCarVocabulary
  -- zone_id, turn_id, tell_attempt
  zone_tell_back_timeout : AssemblyId → ℕ → ℕ → DigitalTwinCarVocabulary
  get_status : DigitalTwinCarVocabulary

unfoldable pub as_fsm_event : DigitalTwinCarVocabulary → Option FsmEvent
as_fsm_event (DigitalTwinCarVocabulary.fsm e) = some e
as_fsm_event _ = none

unfoldable pub into_fsm_event : DigitalTwinCarVocabulary → Option FsmEvent
into_fsm_event (DigitalTwinCarVocabulary.fsm e) = some e
into_fsm_event _ = none

pub data NotFsmVocabulary : Type 0 where
  not_fsm_vocabulary : NotFsmVocabulary

unfoldable pub try_from : DigitalTwinCarVocabulary → Result NotFsmVocabulary FsmEvent
try_from (DigitalTwinCarVocabulary.fsm e) = ok e
try_from _ = err not_fsm_vocabulary
