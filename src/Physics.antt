-- ===== src/Physics.antt =====
-- L0, crates/common/src/vehicle_physics: calibration constants and the kinematic formula.
-- A monotonic `Instant` and a `Duration` are both counted in nanoseconds; `checked` and
-- `saturating_duration_since` with a zero default are subtraction that stops at 0.
-- Speeds are f64 in the source: `rpm * 0.114`, then rounded, which at every u16 rpm is
-- the whole number (114 * rpm + 500) / 1000 (evaluated in IEEE doubles for all 65536 of them).
pub mod Speed
use sdv_simulation.Prelude.{ℕ, ◌+◌, ◌*◌, ◌/◌, ◌-◌, Bool, ◌&&◌, ◌||◌, String, ltb, min}
use sdv_simulation.Prelude.Word.{u16_max}

abbrev pub Instant : Type 0
Instant = ℕ

abbrev pub Duration : Type 0
Duration = ℕ

abbrev pub from_secs : ℕ → Duration
from_secs n = n * 1_000_000_000

abbrev pub duration_since : Instant → Instant → Duration
duration_since now earlier = now - earlier

abbrev pub rpm_idle : ℕ
rpm_idle = 800

abbrev pub rpm_redline_threshold : ℕ
rpm_redline_threshold = 7000

abbrev pub rpm_driving_threshold : ℕ
rpm_driving_threshold = 1000

abbrev pub rpm_stress_duration_threshold_secs : ℕ
rpm_stress_duration_threshold_secs = 5

abbrev pub rpm_extreme_operation_threshold : ℕ
rpm_extreme_operation_threshold = 5500

abbrev pub speed_extreme_operation_threshold_kph : ℕ
speed_extreme_operation_threshold_kph = 160

abbrev pub speed_threshold_warning_message : String
speed_threshold_warning_message = "SpeedThresholdExceeded: ground speed > 160 km/h"

abbrev pub extreme_operation_warning_message : String
extreme_operation_warning_message =
    "ExtremeOperationWarning: speed > 160 km/h and RPM > 5500 (redline / thermal or oil stress risk)"

abbrev pub lux_on_threshold : ℕ
lux_on_threshold = 840

abbrev pub lux_off_threshold : ℕ
lux_off_threshold = 860

abbrev pub front_headlamp_on_ack_wait : Duration
front_headlamp_on_ack_wait = from_secs 2

abbrev pub front_headlamp_off_ack_wait : Duration
front_headlamp_off_ack_wait = from_secs 2

unfoldable pub speed_threshold_exceeded : ℕ → Bool
speed_threshold_exceeded speed_kph = ltb speed_extreme_operation_threshold_kph speed_kph

unfoldable pub extreme_operation_active : ℕ → ℕ → Bool
extreme_operation_active rpm speed_kph =
    ltb rpm_extreme_operation_threshold rpm && speed_threshold_exceeded speed_kph

unfoldable pub operational_warning_active : ℕ → ℕ → Bool
operational_warning_active rpm speed_kph =
    speed_threshold_exceeded speed_kph || extreme_operation_active rpm speed_kph

-- The speed in thousandths of a km/h. It is not negative, so `max(0.0)` does nothing.
unfoldable pub calculate_speed_from_rpm : ℕ → ℕ
calculate_speed_from_rpm rpm = rpm * 114

-- `.round()` of a positive number of thousandths: to the nearest, a half up.
abbrev pub round_thousandths : ℕ → ℕ
round_thousandths x = (x + 500) / 1000

-- `.round()`, `.min(u16::MAX)` and the cast to u16.
unfoldable pub rounded_speed_kph : ℕ → ℕ
unfolding calculate_speed_from_rpm
rounded_speed_kph rpm = min (round_thousandths (calculate_speed_from_rpm rpm)) u16_max
