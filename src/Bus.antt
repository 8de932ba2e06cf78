-- ===== src/Bus.antt =====
-- The device bus, crates/vehicle_device_bus/src: the wire kinds of can/wire_kinds.rs and the
-- front-headlamp codec of devices/front_headlamp/codec.rs. A payload is the list of its bytes.
pub mod Policy
pub mod Wire
pub mod Accepted
pub mod Exact
use sdv_simulation.Prelude.{
  ℕ, ◌+◌, ◌*◌, ◌/◌, ◌%◌, Bool, true, false, List, [], ◌∷◌, Option, none, some, ◌==◌, if◌then◌else◌,
}
use sdv_simulation.Ingress.{PhysicalCarVocabulary}

abbrev pub kind_cmd_on : ℕ
kind_cmd_on = 1

abbrev pub kind_cmd_off : ℕ
kind_cmd_off = 2

abbrev pub kind_ack_on : ℕ
kind_ack_on = 129

abbrev pub kind_ack_off : ℕ
kind_ack_off = 130

abbrev pub kind_nack_on : ℕ
kind_nack_on = 193

abbrev pub kind_nack_off : ℕ
kind_nack_off = 194

pub record FrontHeadlampActuationPayload : Type 0 where
  pub kind : ℕ
  pub session_id : ℕ
  pub sequence_no : ℕ

-- The eight bytes: the kind, two of the session and four of the sequence, the greater ones first.
unfoldable pub encode_payload : FrontHeadlampActuationPayload → List ℕ
encode_payload p =
    p.kind
    ∷ p.session_id / 256
    ∷ p.session_id % 256
    ∷ p.sequence_no / 16777216
    ∷ p.sequence_no / 65536 % 256
    ∷ p.sequence_no / 256 % 256
    ∷ p.sequence_no % 256
    ∷ 0
    ∷ []

-- `None` on fewer than eight bytes; bytes after the seventh are not read.
unfoldable pub decode_payload : List ℕ → Option FrontHeadlampActuationPayload
decode_payload (k ∷ s1 ∷ s0 ∷ q3 ∷ q2 ∷ q1 ∷ q0 ∷ unread ∷ more) = some (record {
  kind = k;
  session_id = s1 * 256 + s0;
  sequence_no = q3 * 16777216 + q2 * 65536 + q1 * 256 + q0;
})
decode_payload _ = none

unfoldable pub payload_to_physical : FrontHeadlampActuationPayload → Option PhysicalCarVocabulary
payload_to_physical p =
    if p.kind == kind_ack_on
    then some (PhysicalCarVocabulary.front_headlamp_command_confirmed true)
    else if p.kind == kind_ack_off
    then some (PhysicalCarVocabulary.front_headlamp_command_confirmed false)
    else if p.kind == kind_nack_on
    then some (PhysicalCarVocabulary.front_headlamp_command_rejected true)
    else if p.kind == kind_nack_off
    then some (PhysicalCarVocabulary.front_headlamp_command_rejected false)
    else none
