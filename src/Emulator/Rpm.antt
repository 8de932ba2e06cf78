-- ===== src/Emulator/Rpm.antt =====
-- crates/emulator/src/models/rpm.rs and its part of config.rs. `F32` is what the code uses of
-- `f32`.
use sdv_simulation.Prelude.{ℕ, ◌/◌, ◌%◌, ◌≤◌, ◌≡◌, Bool, false, ◌==◌, if◌then◌else◌}

pub record F32 : Type 1 where
  pub Float : Type 0
  pub of_u16 : ℕ → Float
  pub add : Float → Float → Float
  pub sub : Float → Float → Float
  pub mul : Float → Float → Float
  pub clamp : Float → Float → Float → Float
  pub to_u16 : Float → ℕ
  pub is_nan : Float → Bool

-- A clamped number that is not a NaN is cast to an integer between the integers it was clamped to.
pub record IsClamping (f : F32) : Type 0 where
  pub clamp_within :
      (x : f.Float) (low high : ℕ)
      → f.is_nan x ≡ false
      → low ≤ high
      → let r = f.to_u16 (f.clamp x (f.of_u16 low) (f.of_u16 high)) in (low ≤ r) × (r ≤ high)

module _ (f : F32) where
  pub record RpmModelConfig : Type 0 where
    pub idle_rpm : ℕ
    pub redline_rpm : ℕ
    pub high_target_rpm : f.Float
    pub low_target_rpm : f.Float
    pub target_flip_period_secs : ℕ
    pub proportional_gain : f.Float

  unfoldable pub target_rpm_for_epoch : RpmModelConfig → ℕ → f.Float
  target_rpm_for_epoch cfg epoch_secs =
      if (epoch_secs / cfg.target_flip_period_secs) % 2 == 0
      then cfg.high_target_rpm
      else cfg.low_target_rpm

  -- The rpm before it is clamped, with the jitter drawn.
  unfoldable pub moved_rpm : RpmModelConfig → f.Float → ℕ → ℕ → f.Float
  moved_rpm cfg jitter current_rpm epoch_secs =
      let gap = f.sub (target_rpm_for_epoch cfg epoch_secs) (f.of_u16 current_rpm) in
      f.add (f.of_u16 current_rpm) (f.add (f.mul gap cfg.proportional_gain) jitter)

  unfoldable pub next_rpm : RpmModelConfig → f.Float → ℕ → ℕ → ℕ
  next_rpm cfg jitter current_rpm epoch_secs = f.to_u16 (
      f.clamp (moved_rpm cfg jitter current_rpm epoch_secs) (f.of_u16 cfg.idle_rpm)
        (f.of_u16 cfg.redline_rpm))
