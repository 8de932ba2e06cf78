-- ===== src/Actuators.antt =====
-- The two actuator programs: crates/front_headlamp_actuator/src/main.rs and
-- crates/wiper_actuator/src/main.rs. `Floats` is what they use of `f64`; a random number that
-- they draw is an argument, and so is what the environment variable holds once it is parsed.
pub mod LogQueue
pub mod Drops
pub mod Headlamp
pub mod Wiper
pub mod Chances
pub mod Answer
use sdv_simulation.Prelude.{Bool, true, ◌≡◌, ◌&&◌, ◌||◌, Option, none, some, if◌then◌else◌}

pub record Floats : Type 1 where
  pub Float : Type 0
  pub le : Float → Float → Bool
  pub lt : Float → Float → Bool
  pub zero : Float
  pub one : Float
  -- `clamp(0.0, 1.0)`
  pub clamp : Float → Float
  pub default_ack_nack : Float

module _ (floats : Floats) where
  -- `parse_prob_env`: what is not a number of 0.0..=1.0 counts as unset.
  unfoldable pub parse_prob_env : Option floats.Float → Option floats.Float
  parse_prob_env none = none
  parse_prob_env (some p) =
      if floats.le floats.zero p && floats.le p floats.one then some p else none

  abbrev unwrap_or : floats.Float → Option floats.Float → floats.Float
  unwrap_or default none = default
  unwrap_or default (some p) = p

  unfoldable pub dont_respond_prob : Option floats.Float → floats.Float
  dont_respond_prob variable = unwrap_or floats.zero (parse_prob_env variable)

  unfoldable pub ack_nack_response_prob : Option floats.Float → floats.Float
  ack_nack_response_prob variable = unwrap_or floats.default_ack_nack (parse_prob_env variable)

  -- `should_ack_or_not` of the headlamp's program and `should_respond` of the wiper's.
  unfoldable pub should_respond : floats.Float → floats.Float → Bool
  should_respond p drawn = floats.le p floats.zero || floats.le p drawn

  unfoldable pub should_send_ack_response : floats.Float → floats.Float → Bool
  should_send_ack_response p drawn = floats.lt drawn (floats.clamp p)
