-- ===== src/Can.antt =====
-- CAN frames, as the socketcan crate offers them: what the repository calls of the crate is the
-- record `CanBus`, and what it relies on is `IsLawful`. `build` is the body that `build_frame`
-- of crates/common/src/signals.rs and of the two devices' can.rs have in common.
pub mod Signals
pub mod Headlamp
pub mod Wiper
pub mod Traffic
pub mod Encoders
use sdv_simulation.Prelude.{
  ℕ, ◌<◌, ◌≤◌, ◌≡◌, refl, ap, ◌∙◌, List, Option, none, some, length, arith,
}
use sdv_simulation.Prelude.Result.{Result, ok, err}

-- `socketcan::Id`.
pub data FrameId (S : Type 0) : Type 0 where
  standard : S → FrameId S
  extended : FrameId S

pub record CanBus : Type 1 where
  pub Frame : Type 0
  pub StandardId : Type 0
  -- `StandardId::new` and `as_raw`
  pub standard_id : ℕ → Option StandardId
  pub as_raw : StandardId → ℕ
  -- `CanFrame::new`, `id` and `data`
  pub new : StandardId → List ℕ → Option Frame
  pub id : Frame → FrameId StandardId
  pub data_bytes : Frame → List ℕ

-- Standard identifiers have eleven bits, and a frame carries eight bytes at most.
pub record IsLawful (bus : CanBus) : Type 0 where
  pub eleven_bits :
      (n : ℕ) → n < 2048 → (s : bus.StandardId) × (bus.standard_id n ≡ some s) × (bus.as_raw s ≡ n)
  pub eight_bytes :
      (s : bus.StandardId) (bytes : List ℕ)
      → length bytes ≤ 8
      → (f : bus.Frame) × (bus.new s bytes ≡ some f)
        × (bus.id f ≡ FrameId.standard s)
        × (bus.data_bytes f ≡ bytes)

-- The kinds of `std::io::Error` that building a frame gives, and the panic of
-- `actuation_command_wire_meta` on a wiper command.
pub data Fault : Type 0 where
  invalid_input invalid_data wiper_panic : Fault

module _ (bus : CanBus) where
  abbrev sealed : Option bus.Frame → Result Fault bus.Frame
  sealed none = err invalid_data
  sealed (some f) = ok f

  abbrev addressed : Option bus.StandardId → List ℕ → Result Fault bus.Frame
  addressed none bytes = err invalid_input
  addressed (some s) bytes = sealed (bus.new s bytes)

  unfoldable pub build : ℕ → List ℕ → Result Fault bus.Frame
  build n bytes = addressed (bus.standard_id n) bytes

  abbrev raw_of : FrameId bus.StandardId → Option ℕ
  raw_of (FrameId.standard s) = some (bus.as_raw s)
  raw_of FrameId.extended = none

  -- The identifier of a standard frame; extended ones have none.
  unfoldable pub raw_id : bus.Frame → Option ℕ
  raw_id f = raw_of (bus.id f)

  module _ (lawful : IsLawful bus) where
    -- Eight bytes at most under an eleven-bit identifier always make a frame, which holds them.
    pub build_fits :
        (n : ℕ) (bytes : List ℕ)
        → n < 2048
        → length bytes ≤ 8
        → (f : bus.Frame) × (build n bytes ≡ ok f)
          × (raw_id f ≡ some n)
          × (bus.data_bytes f ≡ bytes)
    unfolding build raw_id
    build_fits n bytes small short =
        let (s, made, raw) = lawful.eleven_bits n small in
        let (f, sealed_as, named, held) = lawful.eight_bytes s bytes short in
        (
          f,
          ap (λ o. addressed o bytes) made ∙ ap sealed sealed_as,
          ap raw_of named ∙ ap some raw,
          held,
        )
