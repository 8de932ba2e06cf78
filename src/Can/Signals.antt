-- ===== src/Can/Signals.antt =====
-- Telemetry on the bus: `VssSignal::from_can_frame` and `to_can_frame` of
-- crates/common/src/signals.rs.
use sdv_simulation.Prelude.{
  ℕ, ◌+◌, ◌*◌, ◌/◌, ◌%◌, ◌<◌, ◌≡◌, refl, ap, ◌∙◌, Bool, true, false, not, List, [], ◌∷◌, Option,
  none, some, ◌==◌, if◌then◌else◌, arith,
}
use sdv_simulation.Prelude.Double.{F64, quotient, times, f64_as_u16, f64_as_u16-fits}
use sdv_simulation.Prelude.Result.{Result, ok}
use sdv_simulation.Ingress.{VssSignal}
use sdv_simulation.Can.{CanBus, IsLawful, Fault, build, raw_id, build_fits}

abbrev pub id_speed : ℕ
id_speed = 0x101

abbrev pub id_rpm : ℕ
id_rpm = 0x102

abbrev pub id_ambient_lux : ℕ
id_ambient_lux = 0x103

abbrev pub id_rain_detected : ℕ
id_rain_detected = 0x104

-- `u16::to_be_bytes` and back.
abbrev be_bytes : ℕ → List ℕ
be_bytes n = n / 256 % 256 ∷ n % 256 ∷ []

abbrev byte_of : Bool → ℕ
byte_of true = 1
byte_of false = 0

-- `raw as f64 / 100.0`.
abbrev pub speed_of_raw : ℕ → F64
speed_of_raw raw = quotient raw 100

-- `(val * 100.0) as u16`.
abbrev pub raw_of_speed : F64 → ℕ
raw_of_speed val = f64_as_u16 (times val 100)

-- The body of `from_can_frame` on a standard identifier and the bytes of the frame.
unfoldable pub signal_of : ℕ → List ℕ → Option VssSignal
signal_of n (b1 ∷ b0 ∷ more) =
    if n == id_speed
    then some (VssSignal.vehicle_speed (speed_of_raw (b1 * 256 + b0)))
    else if n == id_rpm
    then some (VssSignal.engine_rpm (b1 * 256 + b0))
    else if n == id_ambient_lux
    then some (VssSignal.ambient_lux (b1 * 256 + b0))
    else if n == id_rain_detected
    then some (VssSignal.rain_detected (not (b1 == 0)))
    else none
signal_of n _ = none

abbrev pub known_signal : Option ℕ → List ℕ → Option VssSignal
known_signal none bytes = none
known_signal (some n) bytes = signal_of n bytes

-- The integers are those of a `u16`.
abbrev pub Fits : VssSignal → Type 0
Fits (VssSignal.vehicle_speed val) = Unit {0}
Fits (VssSignal.engine_rpm rpm) = rpm < 65536
Fits (VssSignal.ambient_lux lux) = lux < 65536
Fits (VssSignal.rain_detected _) = Unit {0}

be_back : (n : ℕ) → n < 65536 → n / 256 % 256 * 256 + n % 256 ≡ n
be_back n h = omega arith

abbrev signal_id : VssSignal → ℕ
signal_id (VssSignal.vehicle_speed _) = id_speed
signal_id (VssSignal.engine_rpm _) = id_rpm
signal_id (VssSignal.ambient_lux _) = id_ambient_lux
signal_id (VssSignal.rain_detected _) = id_rain_detected

abbrev signal_bytes : VssSignal → List ℕ
signal_bytes (VssSignal.vehicle_speed val) = be_bytes (raw_of_speed val)
signal_bytes (VssSignal.engine_rpm rpm) = be_bytes rpm
signal_bytes (VssSignal.ambient_lux lux) = be_bytes lux
signal_bytes (VssSignal.rain_detected rain) = byte_of rain ∷ 0 ∷ []

-- What the signal is worth to a reader: a speed is cut to whole hundredths, the others are whole.
abbrev pub as_read : VssSignal → VssSignal
as_read (VssSignal.vehicle_speed val) = VssSignal.vehicle_speed (speed_of_raw (raw_of_speed val))
as_read signal = signal

signal_of-signal_bytes :
    (signal : VssSignal)
    → Fits signal
    → signal_of (signal_id signal) (signal_bytes signal) ≡ some (as_read signal)
unfolding signal_of
signal_of-signal_bytes (VssSignal.vehicle_speed val) fits =
    ap (λ n. some (VssSignal.vehicle_speed (speed_of_raw n)))
      (be_back (raw_of_speed val) (f64_as_u16-fits (times val 100)))
signal_of-signal_bytes (VssSignal.engine_rpm rpm) fits =
    ap (λ n. some (VssSignal.engine_rpm n)) (be_back rpm fits)
signal_of-signal_bytes (VssSignal.ambient_lux lux) fits =
    ap (λ n. some (VssSignal.ambient_lux n)) (be_back lux fits)
signal_of-signal_bytes (VssSignal.rain_detected true) fits = refl
signal_of-signal_bytes (VssSignal.rain_detected false) fits = refl

module _ (bus : CanBus) where
  unfoldable pub from_can_frame : bus.Frame → Option VssSignal
  from_can_frame f = known_signal (raw_id bus f) (bus.data_bytes f)

  unfoldable pub to_can_frame : VssSignal → Result Fault bus.Frame
  to_can_frame (VssSignal.vehicle_speed val) = build bus id_speed (be_bytes (raw_of_speed val))
  to_can_frame (VssSignal.engine_rpm rpm) = build bus id_rpm (be_bytes rpm)
  to_can_frame (VssSignal.ambient_lux lux) = build bus id_ambient_lux (be_bytes lux)
  to_can_frame (VssSignal.rain_detected rain) = build bus id_rain_detected (byte_of rain ∷ 0 ∷ [])

  to_can_frame_builds :
      (signal : VssSignal)
      → to_can_frame signal ≡ build bus (signal_id signal) (signal_bytes signal)
  unfolding to_can_frame
  to_can_frame_builds (VssSignal.vehicle_speed _) = refl
  to_can_frame_builds (VssSignal.engine_rpm _) = refl
  to_can_frame_builds (VssSignal.ambient_lux _) = refl
  to_can_frame_builds (VssSignal.rain_detected _) = refl

  -- What a frame with that identifier and those bytes is read as.
  pub from_can_frame_reads :
      (f : bus.Frame) (n : ℕ) (bytes : List ℕ)
      → raw_id bus f ≡ some n
      → bus.data_bytes f ≡ bytes
      → from_can_frame f ≡ signal_of n bytes
  unfolding from_can_frame
  from_can_frame_reads f n bytes named held =
      ap (λ o. known_signal o (bus.data_bytes f)) named ∙ ap (signal_of n) held

  module _ (lawful : IsLawful bus) where
    signal_builds :
        (signal : VssSignal)
        → (f : bus.Frame) × (build bus (signal_id signal) (signal_bytes signal) ≡ ok f)
          × (raw_id bus f ≡ some (signal_id signal))
          × (bus.data_bytes f ≡ signal_bytes signal)
    signal_builds (VssSignal.vehicle_speed s) =
        build_fits bus lawful _ _ (omega arith) (omega arith)
    signal_builds (VssSignal.engine_rpm rpm) = build_fits bus lawful _ _ (omega arith) (omega arith)
    signal_builds (VssSignal.ambient_lux lux) =
        build_fits bus lawful _ _ (omega arith) (omega arith)
    signal_builds (VssSignal.rain_detected rain) =
        build_fits bus lawful _ _ (omega arith) (omega arith)

    pub from_can_frame-to_can_frame :
        (signal : VssSignal)
        → Fits signal
        → (f : bus.Frame) × (to_can_frame signal ≡ ok f)
          × (from_can_frame f ≡ some (as_read signal))
    from_can_frame-to_can_frame signal fits =
        let (f, built, named, held) = signal_builds signal in
        (
          f,
          to_can_frame_builds signal ∙ built,
          from_can_frame_reads f _ _ named held ∙ signal_of-signal_bytes signal fits,
        )
