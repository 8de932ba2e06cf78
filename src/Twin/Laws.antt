-- ===== src/Twin/Laws.antt =====
-- The state laws: crates/common/src/digital_twin/car_behaviour_checker.rs. The text of a
-- violation is kept as its template's constructor; a check that passes gives `none`.
use sdv_simulation.Prelude.{
  ℕ, ◌&&◌, List, [], ◌∷◌, String, Option, none, some, ltb, leb, filter_map, if◌then◌else◌,
}
use sdv_simulation.Prelude.Result.{Result, ok, err}
use sdv_simulation.Physics.{rpm_driving_threshold}
use sdv_simulation.Modes.{FsmState, state_eq}
use sdv_simulation.Zones.{VehicleContext}

pub data LawDetail : Type 0 where
  -- "Safety Breach: Car is Off but moving at {} km/h"
  moving_while_off : ℕ → LawDetail
  -- "Logic Breach: State is Driving but RPM is <= 1000"
  rpm_too_low : LawDetail

pub record StateLaw : Type 0 where
  pub name : String
  pub check : FsmState → VehicleContext → Option LawDetail

pub record LawViolation : Type 0 where
  pub law : String
  pub detail : LawDetail

unfoldable pub law_kinetic_locking_holds : FsmState → VehicleContext → Option LawDetail
law_kinetic_locking_holds state ctx =
    if state_eq state FsmState.off && ltb 0 ctx.powertrain.speed_kph
    then some (moving_while_off ctx.powertrain.speed_kph)
    else none

unfoldable pub law_rpm_above_threshold_holds : FsmState → VehicleContext → Option LawDetail
law_rpm_above_threshold_holds state ctx =
    if state_eq state FsmState.driving
      && leb ctx.powertrain.wheel_rpm.front_left rpm_driving_threshold
    then some rpm_too_low
    else none

abbrev pub state_laws : List StateLaw
unfolding law_kinetic_locking_holds law_rpm_above_threshold_holds
state_laws =
    record { name = "kinetic_locking"; check = law_kinetic_locking_holds }
    ∷ record { name = "rpm_above_threshold"; check = law_rpm_above_threshold_holds }
    ∷ []

abbrev violation : FsmState → VehicleContext → StateLaw → Option LawViolation
violation state ctx law = elim (law.check state ctx) [
  | none ↦ none
  | some detail ↦ some (record { law = law.name; detail = detail })
]

abbrev pub verdict : List LawViolation → Result (List LawViolation) (Unit {0})
verdict [] = ok tt
verdict (v ∷ vs) = err (v ∷ vs)

unfoldable pub verify_state_laws : FsmState → VehicleContext → Result (List LawViolation) (Unit {0})
unfolding law_kinetic_locking_holds law_rpm_above_threshold_holds
verify_state_laws state ctx = verdict (filter_map (violation state ctx) state_laws)
