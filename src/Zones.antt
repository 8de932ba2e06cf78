-- ===== src/Zones.antt =====
-- L1, crates/common/src/vehicle_state: the zones, and the context that holds one of each.
-- The health and visibility zones (health.rs, visibility.rs) stand here.
pub mod Powertrain
pub mod Headlamp
pub mod Wiper
use sdv_simulation.Prelude.{ℕ, Bool, true, ◌&&◌, ltb}
use Powertrain.{PowertrainContext}
use Headlamp.{HeadlampContext}
use Wiper.{WiperContext}

pub record VehicleHealthContext : Type 0 where
  pub fuel_level_pct : ℕ
  pub oil_pressure_kpa : ℕ
  pub tyre_pressure_ok : Bool

abbrev pub health_default : VehicleHealthContext
health_default = record { fuel_level_pct = 85; oil_pressure_kpa = 30; tyre_pressure_ok = true }

unfoldable pub health_is_healthy : VehicleHealthContext → Bool
health_is_healthy h = ltb 5 h.fuel_level_pct && ltb 10 h.oil_pressure_kpa && h.tyre_pressure_ok

pub record VisibilityContext : Type 0 where
  pub ambient_lux : ℕ

abbrev pub visibility_default : VisibilityContext
visibility_default = record { ambient_lux = 100 }

unfoldable pub apply_lux : ℕ → VisibilityContext → VisibilityContext
apply_lux lux v = record v { ambient_lux = lux }

pub record VehicleContext : Type 0 where
  pub powertrain : PowertrainContext
  pub health : VehicleHealthContext
  pub visibility : VisibilityContext
  pub headlamp : HeadlampContext
  pub wiper : WiperContext

abbrev pub default : VehicleContext
default = record {
  powertrain = Powertrain.default;
  health = health_default;
  visibility = visibility_default;
  headlamp = Headlamp.default;
  wiper = Wiper.default;
}

unfoldable pub is_healthy : VehicleContext → Bool
unfolding health_is_healthy
is_healthy c = health_is_healthy c.health
