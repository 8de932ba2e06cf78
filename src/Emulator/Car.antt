-- ===== src/Emulator/Car.antt =====
-- `PhysicalCar` of crates/emulator/src/car_physics.rs and a round of the loop of main.rs.
use sdv_simulation.Prelude.{ℕ, Bool, false, List, [], ◌∷◌}
use sdv_simulation.Prelude.Result.{Result, ok, err}
use sdv_simulation.Physics.{rpm_idle}
use sdv_simulation.Ingress.{VssSignal}
use sdv_simulation.Can.{CanBus, Fault}
use sdv_simulation.Can.Signals.{to_can_frame}
use sdv_simulation.Emulator.Rain.{
  RainModel, RainModelConfig, RainDraw, new_rain, next_rain_detected,
}
use sdv_simulation.Emulator.Light.{
  AmbientRoadLightModel, AmbientRoadLightModelConfig, LightDraw, new_light, next_ambient_lux,
}
use sdv_simulation.Emulator.Rpm.{F32, RpmModelConfig, next_rpm}

module _ (f : F32) where
  pub record PhysicalCar : Type 0 where
    pub rpm : ℕ
    pub ambient_lux : ℕ
    pub rain_detected : Bool
    pub rpm_model : RpmModelConfig f
    pub ambient_road_light_model : AmbientRoadLightModel
    pub rain_model : RainModel

  unfoldable pub new_with_config :
      RpmModelConfig f → AmbientRoadLightModelConfig → RainModelConfig → PhysicalCar
  new_with_config rpm light rain = record {
    rpm = rpm_idle;
    ambient_lux = 850;
    rain_detected = false;
    rpm_model = rpm;
    ambient_road_light_model = new_light light;
    rain_model = new_rain rain;
  }

  -- The time in seconds, and the draws of the three models.
  pub record Tick : Type 0 where
    pub now : ℕ
    pub jitter : f.Float
    pub light : LightDraw
    pub rain : RainDraw

  unfoldable pub update : Tick → PhysicalCar → PhysicalCar
  update t car =
      let light = next_ambient_lux t.light car.ambient_road_light_model in
      let rain = next_rain_detected t.rain car.rain_model in
      record {
        rpm = next_rpm f car.rpm_model t.jitter car.rpm t.now;
        ambient_lux = light.1;
        rain_detected = rain.1;
        rpm_model = car.rpm_model;
        ambient_road_light_model = light.0;
        rain_model = rain.0;
      }

  module _ (bus : CanBus) where
    -- The three signals in the order in which they are written. A frame that cannot be built ends
    -- the program.
    abbrev pub signals : PhysicalCar → List VssSignal
    signals car =
        VssSignal.engine_rpm car.rpm
        ∷ VssSignal.ambient_lux car.ambient_lux
        ∷ VssSignal.rain_detected car.rain_detected
        ∷ []

    abbrev put_front : bus.Frame → Result Fault (List bus.Frame) → Result Fault (List bus.Frame)
    put_front frame (ok frames) = ok (frame ∷ frames)
    put_front frame (err fault) = err fault

    abbrev pub write_frame :
        Result Fault bus.Frame → Result Fault (List bus.Frame) → Result Fault (List bus.Frame)
    write_frame (ok frame) rest = put_front frame rest
    write_frame (err fault) rest = err fault

    unfoldable pub write_all : List VssSignal → Result Fault (List bus.Frame)
    write_all [] = ok []
    write_all (signal ∷ more) = write_frame (to_can_frame bus signal) (write_all more)

    -- A round of the loop: the car after it, and the frames.
    unfoldable pub publish_round : Tick → PhysicalCar → PhysicalCar × Result Fault (List bus.Frame)
    publish_round t car = let next = update t car in (next, write_all (signals next))
