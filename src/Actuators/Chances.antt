-- ===== src/Actuators/Chances.antt =====
-- The environment variable that makes an actuator sit tight, at its ends: `parse_prob_env`,
-- `should_ack_or_not` and `should_respond` of the two main.rs.
use sdv_simulation.Prelude.{◌≡◌, refl, true, false, ◌&&◌, none, some}
use sdv_simulation.Actuators.{Floats, parse_prob_env, dont_respond_prob, should_respond}

-- The order of 0.0 and 1.0.
pub record IsOrdered (floats : Floats) : Type 0 where
  pub zero_refl : floats.le floats.zero floats.zero ≡ true
  pub one_refl : floats.le floats.one floats.one ≡ true
  pub zero_one : floats.le floats.zero floats.one ≡ true
  pub one_zero : floats.le floats.one floats.zero ≡ false

module _ (floats : Floats) (ordered : IsOrdered floats) where
  -- With the variable unset, or set to a number outside 0.0..=1.0, every command is obeyed; set to
  -- 1.0, none is, as long as the number drawn is below 1.0.
  dont_respond_prob_ends :
      (drawn p : floats.Float)
      → floats.le floats.one drawn ≡ false
      → floats.le floats.zero p && floats.le p floats.one ≡ false
      → (should_respond floats (dont_respond_prob floats none) drawn ≡ true)
        × (should_respond floats (dont_respond_prob floats (some p)) drawn ≡ true)
        × (should_respond floats (dont_respond_prob floats (some floats.one)) drawn ≡ false)
  unfolding should_respond dont_respond_prob parse_prob_env
  dont_respond_prob_ends drawn p below outside = (
    rw ordered.zero_refl refl,
    rw (outside, ordered.zero_refl) refl,
    rw (ordered.zero_one, ordered.one_refl, ordered.one_zero, below) refl,
  )
