-- ===== src/Diagnostics/Truth.antt =====
-- What the line of a mode change says of the speed: `diag_state_transition` of
-- crates/common/src/diagnostic/mod.rs over the steps of crates/common/src/fsm.
use sdv_simulation.Prelude.{
  ℕ, ◌<◌, ◌≤◌, ◌≡◌, ◌≢◌, inl, inr, refl, Bool, Bool-cases, ltb, true, false, arith,
}
use sdv_simulation.Physics.{
  Instant, speed_threshold_exceeded, extreme_operation_active, operational_warning_active,
}
use sdv_simulation.Modes.{FsmState}
use sdv_simulation.Zones.{VehicleContext}
use sdv_simulation.Zones.Powertrain.{primary_rpm, is_operational_warning_active}
use sdv_simulation.Fsm.Machineries.{FsmEvent}
use sdv_simulation.Fsm.Transition.{transition}
use sdv_simulation.Fsm.{step}
use sdv_simulation.Diagnostics.{
  Detail, detail_of, nothing, speed_rpm, lighting_unsafe, both_extreme, speed_over_limit,
  within_limit, over_limit,
}

-- The speed and the rpm that a detail names are those of the context, and what it says of the limit
-- holds of them.
abbrev pub IsTrue : Detail → VehicleContext → Type 0
IsTrue (both_extreme speed rpm) c =
    (speed ≡ c.powertrain.speed_kph)
    × (rpm ≡ primary_rpm c.powertrain)
    × (160 < speed)
    × (5500 < rpm)
IsTrue (speed_over_limit speed rpm) c =
    (speed ≡ c.powertrain.speed_kph)
    × (rpm ≡ primary_rpm c.powertrain)
    × (160 < speed)
    × (rpm ≤ 5500)
IsTrue (over_limit speed rpm) c =
    (speed ≡ c.powertrain.speed_kph) × (rpm ≡ primary_rpm c.powertrain) × (160 < speed)
IsTrue (within_limit speed rpm) c =
    (speed ≡ c.powertrain.speed_kph) × (rpm ≡ primary_rpm c.powertrain) × (speed ≤ 160)
IsTrue (speed_rpm speed rpm) c = (speed ≡ c.powertrain.speed_kph) × (rpm ≡ primary_rpm c.powertrain)
IsTrue (lighting_unsafe speed rpm) c =
    (speed ≡ c.powertrain.speed_kph) × (rpm ≡ primary_rpm c.powertrain)
IsTrue nothing c = Unit {0}

-- The modes whose line names no speed and no rpm.
abbrev pub is_silent : FsmState → Bool
is_silent FsmState.off = true
is_silent (FsmState.preparing_to_start _) = true
is_silent (FsmState.preparing_to_stop _) = true
is_silent _ = false

abbrev pub names_nothing : Detail → Bool
names_nothing nothing = true
names_nothing _ = false

ltb-true : (a b : ℕ) → ltb a b ≡ true → a < b
ltb-true a b h = ground arith

ltb-false : (a b : ℕ) → ltb a b ≡ false → b ≤ a
ltb-false a b h = ground arith

true-ltb : (a b : ℕ) → a < b → ltb a b ≡ true
true-ltb a b h = ground arith

-- In Driving the line tells the speed as it is; in the warning it does while the speed is over.
driving-IsTrue : (c : VehicleContext) → IsTrue (detail_of FsmState.driving c) c
unfolding detail_of speed_threshold_exceeded
driving-IsTrue c = elim (Bool-cases (ltb 160 c.powertrain.speed_kph)) [
  | inl over ↦ rw over (refl, refl, ltb-true 160 c.powertrain.speed_kph over)
  | inr within ↦ rw within (refl, refl, ltb-false 160 c.powertrain.speed_kph within)
]

warning-IsTrue :
    (t : Instant) (c : VehicleContext)
    → 160 < c.powertrain.speed_kph
    → IsTrue (detail_of (FsmState.extreme_operation_warning t) c) c
unfolding detail_of speed_threshold_exceeded extreme_operation_active
warning-IsTrue t c fast =
    let fast_true : ltb 160 c.powertrain.speed_kph ≡ true =
      true-ltb 160 c.powertrain.speed_kph fast in
    elim (Bool-cases (ltb 5500 (primary_rpm c.powertrain))) [
      | inl high ↦
          rw (high, fast_true) (refl, refl, fast, ltb-true 5500 (primary_rpm c.powertrain) high)
      | inr low ↦ rw low (refl, refl, fast, ltb-false 5500 (primary_rpm c.powertrain) low)
    ]

enters_warning :
    (s : FsmState) (c : VehicleContext) (e : FsmEvent) (now t : Instant)
    → (step s c e now).next_state ≢ s
    → (step s c e now).next_state ≡ FsmState.extreme_operation_warning t
    → 160 < c.powertrain.speed_kph
unfolding step transition is_operational_warning_active operational_warning_active
    speed_threshold_exceeded extreme_operation_active
enters_warning FsmState.off c e now t h k = ground arith
enters_warning _ c e now t h k = ground arith

entered-IsTrue :
    (s : FsmState) (c : VehicleContext)
    → ((t : Instant) → s ≡ FsmState.extreme_operation_warning t → 160 < c.powertrain.speed_kph)
    → IsTrue (detail_of s c) c
unfolding detail_of
entered-IsTrue FsmState.off c h = tt
entered-IsTrue FsmState.idle c h = (refl, refl)
entered-IsTrue FsmState.driving c h = driving-IsTrue c
entered-IsTrue FsmState.driving_dangerously c h = (refl, refl)
entered-IsTrue (FsmState.extreme_operation_warning t) c h = warning-IsTrue t c (h t refl)
entered-IsTrue (FsmState.preparing_to_start r) c h = tt
entered-IsTrue (FsmState.preparing_to_stop r) c h = tt

abbrev pub is_dangerous : FsmState → Bool
is_dangerous FsmState.driving_dangerously = true
is_dangerous _ = false

abbrev pub warns_of_light : Detail → Bool
warns_of_light (lighting_unsafe _ _) = true
warns_of_light _ = false

detail_of-warns_of_light :
    (s : FsmState) (c : VehicleContext) → warns_of_light (detail_of s c) ≡ is_dangerous s
unfolding detail_of
detail_of-warns_of_light FsmState.driving c = ground arith
detail_of-warns_of_light (FsmState.extreme_operation_warning t) c = ground arith
detail_of-warns_of_light _ c = refl

detail_of-names_nothing :
    (s : FsmState) (c : VehicleContext) → names_nothing (detail_of s c) ≡ is_silent s
unfolding detail_of
detail_of-names_nothing FsmState.off c = refl
detail_of-names_nothing FsmState.idle c = refl
detail_of-names_nothing FsmState.driving c = ground arith
detail_of-names_nothing FsmState.driving_dangerously c = refl
detail_of-names_nothing (FsmState.extreme_operation_warning t) c = ground arith
detail_of-names_nothing (FsmState.preparing_to_start r) c = refl
detail_of-names_nothing (FsmState.preparing_to_stop r) c = refl

-- The line of a step that changes the mode. It names no speed and no rpm exactly where the new mode
-- is Off or a preparation; elsewhere those that it names are the context's, and what it says of
-- their limits holds: of the speed on entering Driving, of both on entering the warning, where the
-- speed is over its limit. It says that the lighting is unsafe exactly on entering
-- DrivingDangerously.
pub step-IsTrue :
    (s : FsmState) (c : VehicleContext) (e : FsmEvent) (now : Instant)
    → (step s c e now).next_state ≢ s
    → let next = (step s c e now).next_state in
      IsTrue (detail_of next c) c
      × (names_nothing (detail_of next c) ≡ is_silent next)
      × (warns_of_light (detail_of next c) ≡ is_dangerous next)
step-IsTrue s c e now changed = (
  entered-IsTrue (step s c e now).next_state c (λ t k. enters_warning s c e now t changed k),
  detail_of-names_nothing (step s c e now).next_state c,
  detail_of-warns_of_light (step s c e now).next_state c,
)
