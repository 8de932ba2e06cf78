-- ===== src/Zones/Powertrain.antt =====
-- The powertrain zone: crates/common/src/vehicle_state/powertrain.rs.
use sdv_simulation.Prelude.{ℕ, Bool, ltb, leb, ◌==◌, if◌then◌else◌}
use sdv_simulation.Physics.{
  rpm_idle, rpm_redline_threshold, rounded_speed_kph, operational_warning_active,
}

pub record WheelRpm : Type 0 where
  pub front_left : ℕ
  pub front_right : ℕ
  pub rear_left : ℕ
  pub rear_right : ℕ

abbrev pub uniform : ℕ → WheelRpm
uniform rpm = record { front_left = rpm; front_right = rpm; rear_left = rpm; rear_right = rpm }

pub data PowertrainMode : Type 0 where
  stalled rolling redline : PowertrainMode

pub record PowertrainContext : Type 0 where
  pub wheel_rpm : WheelRpm
  pub speed_kph : ℕ

abbrev pub default : PowertrainContext
default = record { wheel_rpm = uniform 0; speed_kph = 0 }

abbrev pub primary_rpm : PowertrainContext → ℕ
primary_rpm c = c.wheel_rpm.front_left

unfoldable pub apply_rpm : ℕ → PowertrainContext → PowertrainContext
apply_rpm rpm c = record c { wheel_rpm = uniform rpm }

unfoldable pub refresh_speed : PowertrainContext → PowertrainContext
refresh_speed c = record c { speed_kph = rounded_speed_kph (primary_rpm c) }

unfoldable pub freeze_standstill : PowertrainContext → PowertrainContext
freeze_standstill c = record c { speed_kph = 0 }

unfoldable pub is_stationary : PowertrainContext → Bool
is_stationary c = c.speed_kph == 0

unfoldable pub is_operational_warning_active : PowertrainContext → Bool
is_operational_warning_active c = operational_warning_active (primary_rpm c) c.speed_kph

unfoldable pub mode : PowertrainContext → PowertrainMode
mode c =
    let rpm = primary_rpm c in
    if ltb rpm rpm_idle
    then PowertrainMode.stalled
    else if leb rpm_redline_threshold rpm
    then PowertrainMode.redline
    else PowertrainMode.rolling
