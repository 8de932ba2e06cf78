-- ===== src/Physics/Speed.antt =====
-- What the rounded kinematic speed says about the rpm it was computed from.
use sdv_simulation.Prelude.{ℕ, ◌≡◌, ◌≤◌, ◌<◌, ◌↔◌, true, arith}
use sdv_simulation.Prelude.Word.{u16_max}
use sdv_simulation.Physics.{
  rounded_speed_kph, operational_warning_active, speed_threshold_exceeded, extreme_operation_active,
}

-- The car stands exactly when the rpm is below 5: any greater reading rounds to motion.
rounded_speed_kph-eq-zero_iff : (rpm : ℕ) → (rounded_speed_kph rpm ≡ 0) ↔ (rpm < 5)
unfolding rounded_speed_kph
rounded_speed_kph-eq-zero_iff rpm = (λ h. omega arith, λ h. omega arith)

rounded_speed_kph_mono : (a b : ℕ) → a ≤ b → rounded_speed_kph a ≤ rounded_speed_kph b
unfolding rounded_speed_kph
rounded_speed_kph_mono a b h = omega arith

-- A u16 rpm gives at most 7471 km/h, so the cast to u16 never cuts the speed.
rounded_speed_kph-le : (rpm : ℕ) → rpm ≤ u16_max → rounded_speed_kph rpm ≤ 7471
unfolding rounded_speed_kph
rounded_speed_kph-le rpm h = omega arith

-- The rpm term adds nothing: the warning is active exactly above 160 km/h.
operational_warning_active_iff :
    (rpm speed : ℕ) → (operational_warning_active rpm speed ≡ true) ↔ (160 < speed)
unfolding operational_warning_active speed_threshold_exceeded extreme_operation_active
operational_warning_active_iff rpm speed = ground arith
