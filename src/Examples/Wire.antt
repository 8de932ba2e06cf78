-- ===== src/Examples/Wire.antt =====
-- A concrete bus, actor and arithmetic, which the theorems over the bus take as parameters.
use sdv_simulation.Prelude.{
  ℕ, ◌+◌, ◌-◌, ◌*◌, ◌<◌, ◌≤◌, ◌≡◌, refl, true, false, none, some, List, [], ◌∷◌, ◌++◌, length, ltb,
  leb, min, arith, if◌then◌else◌,
}
use sdv_simulation.Twin.{DigitalTwinCarVocabulary}
use sdv_simulation.Can.{CanBus, IsLawful, FrameId}
use sdv_simulation.Actuators.{Floats}
use sdv_simulation.Controller.{ActorRef, CallResult}
use sdv_simulation.Emulator.Rpm.{F32, IsClamping}

-- A frame is its identifier and its bytes.
abbrev pub wire : CanBus
wire = record {
  Frame = ℕ × List ℕ;
  StandardId = ℕ;
  standard_id = λ n. if ltb n 2048 then some n else none;
  as_raw = λ n. n;
  new = λ n bytes. if leb (length bytes) 8 then some (n, bytes) else none;
  id = λ f. FrameId.standard f.0;
  data_bytes = λ f. f.1;
}

below : (n : ℕ) → n < 2048 → ltb n 2048 ≡ true
below n h = ground arith

short : (n : ℕ) → n ≤ 8 → leb n 8 ≡ true
short n h = ground arith

pub wire_IsLawful : IsLawful wire
wire_IsLawful = record {
  eleven_bits = λ n h. (n, rw (below n h) refl, refl);
  eight_bytes = λ s bytes h. ((s, bytes), rw (short (length bytes) h) refl, refl, refl);
}

-- Probabilities in thousandths.
abbrev pub thousandths : Floats
thousandths = record {
  Float = ℕ;
  le = leb;
  lt = ltb;
  zero = 0;
  one = 1000;
  clamp = λ p. min p 1000;
  default_ack_nack = 700;
}

-- A mailbox that takes every message.
abbrev pub taking : ActorRef
taking = record {
  Mailbox = List DigitalTwinCarVocabulary;
  send_message = λ m b. some (b ++ (m ∷ []));
  call = λ m b. some CallResult.timeout;
}

abbrev within : ℕ → ℕ → ℕ → ℕ
within x low high = if ltb x low then low else if ltb high x then high else x

-- Whole numbers, of which none is a NaN and which stop at 0.
abbrev pub whole : F32
whole = record {
  Float = ℕ;
  of_u16 = λ n. n;
  add = λ a b. a + b;
  sub = λ a b. a - b;
  mul = λ a b. a * b;
  clamp = within;
  to_u16 = λ n. n;
  is_nan = λ n. false;
}

within_bounds :
    (x low high : ℕ) → low ≤ high → (low ≤ within x low high) × (within x low high ≤ high)
within_bounds x low high h = (ground arith, ground arith)

pub whole_IsClamping : IsClamping whole
whole_IsClamping = record { clamp_within = λ x low high number h. within_bounds x low high h }
