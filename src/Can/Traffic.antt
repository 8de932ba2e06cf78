-- ===== src/Can/Traffic.antt =====
-- Who reads what on the shared bus: the decoders of signals.rs, front_headlamp/can.rs and
-- wiper/can.rs look at one frame each.
use sdv_simulation.Prelude.{
  ℕ, ◌≡◌, ◌≢◌, ◌⊎◌, inl, inr, refl, Bool, true, false, ◌&&◌, List, [], ◌∷◌, Option, none, some,
  is_some, arith, ℕ_discrete,
}
use sdv_simulation.Can.{CanBus, raw_id}
use sdv_simulation.Can.Signals.{known_signal, signal_of, from_can_frame}
use sdv_simulation.Can.Headlamp
use sdv_simulation.Can.Wiper

-- A frame read as telemetry has one of the four telemetry identifiers.
pub signal_of_foreign :
    (n : ℕ) (bytes : List ℕ) → (n ≡ 0x204) ⊎ (n ≡ 0x205) → signal_of n bytes ≡ none
unfolding signal_of
signal_of_foreign n [] h = refl
signal_of_foreign n (b ∷ []) h = refl
signal_of_foreign n (b1 ∷ b0 ∷ more) (inl e) = ground (arith, e)
signal_of_foreign n (b1 ∷ b0 ∷ more) (inr e) = ground (arith, e)

module _ (n : ℕ) (bytes : List ℕ) where
  unread_by_headlamp : n ≢ 0x204 → Headlamp.known_payload (some n) bytes ≡ none
  unfolding Headlamp.known_payload
  unread_by_headlamp h = ground arith

  unread_by_wiper : n ≢ 0x205 → Wiper.known_payload (some n) bytes ≡ none
  unfolding Wiper.known_payload
  unread_by_wiper h = ground arith

none_reads : (b : Bool) → b && false ≡ false
none_reads true = refl
none_reads false = refl

-- Whether telemetry, the headlamp and the wiper read the frame: at most one of them does.
abbrev pub Apart : Bool → Bool → Bool → Type 0
Apart telemetry headlamp wiper =
    (telemetry && headlamp ≡ false) × (telemetry && wiper ≡ false) × (headlamp && wiper ≡ false)

abbrev Readers : Option ℕ → List ℕ → Type 0
Readers o bytes =
    Apart (is_some (known_signal o bytes)) (is_some (Headlamp.known_payload o bytes))
      (is_some (Wiper.known_payload o bytes))

Readers-apart : (o : Option ℕ) (bytes : List ℕ) → Readers o bytes
Readers-apart none bytes = unfold Headlamp.known_payload Wiper.known_payload in (refl, refl, refl)
Readers-apart (some n) bytes = elim (ℕ_discrete n 0x204) [
  | yes e ↦
      rw (signal_of_foreign n bytes (inl e), unread_by_wiper n bytes (omega (arith, e)), none_reads)
        (refl, refl, refl)
  | no not_headlamp ↦ elim (ℕ_discrete n 0x205) [
    | yes e ↦
        rw (signal_of_foreign n bytes (inr e), unread_by_headlamp n bytes not_headlamp)
          (refl, refl, refl)
    | no not_wiper ↦
        rw (unread_by_headlamp n bytes not_headlamp, unread_by_wiper n bytes not_wiper, none_reads)
          (refl, refl, refl)
  ]
]

-- No frame, standard or extended, is read by two of telemetry, the headlamp and the wiper.
pub one_reader :
    (bus : CanBus) (f : bus.Frame)
    → Apart
        (is_some (from_can_frame bus f))
        (is_some (Headlamp.decode_payload_from_can_frame bus f))
        (is_some (Wiper.decode_payload_from_can_frame bus f))
unfolding from_can_frame Headlamp.decode_payload_from_can_frame Wiper.decode_payload_from_can_frame
one_reader bus f = Readers-apart (raw_id bus f) (bus.data_bytes f)
