-- ===== src/Bus/Policy.antt =====
-- The gateway's guard on headlamp responses:
-- crates/vehicle_device_bus/src/devices/front_headlamp/policy.rs, and
-- `actuation_command_wire_meta` of can.rs.
use sdv_simulation.Prelude.{
  ℕ, Bool, true, false, not, ◌||◌, ◌⊎◌, inl, inr, Option, none, some, ◌==◌, if◌then◌else◌,
}
use sdv_simulation.Prelude.Word.{as_u16, as_u32}
use sdv_simulation.Ingress.{PhysicalCarVocabulary}
use sdv_simulation.Actuation.{
  CorrelationId, ActuationCommand, switch_front_headlamp_on, switch_front_headlamp_off, start_wiper,
  stop_wiper,
}
use sdv_simulation.Bus.{
  FrontHeadlampActuationPayload, kind_cmd_on, kind_cmd_off, kind_ack_on, kind_ack_off, kind_nack_on,
  kind_nack_off, payload_to_physical,
}

pub record PendingFrontHeadlampCommand : Type 0 where
  pub session : ℕ
  pub sequence : ℕ
  pub on_command : Bool

pub data IgnoreReason : Type 0 where
  command_frame unknown_kind no_pending_command correlation_mismatch : IgnoreReason
  direction_mismatch non_ingress_kind ack_kind_mapping_mismatch : IgnoreReason

pub data FrontHeadlampPolicyDecision : Type 0 where
  -- physical, session, sequence
  accept : PhysicalCarVocabulary → ℕ → ℕ → FrontHeadlampPolicyDecision
  ignore : IgnoreReason → FrontHeadlampPolicyDecision

pub record FrontHeadlampPolicy : Type 0 where
  pub pending : Option PendingFrontHeadlampCommand

abbrev pub pending_of : Bool → CorrelationId → PendingFrontHeadlampCommand
pending_of on_command id = record {
  session = as_u16 id.session_id;
  sequence = as_u32 id.sequence_no;
  on_command = on_command;
}

unfoldable pub on_command_sent : ActuationCommand → FrontHeadlampPolicy → FrontHeadlampPolicy
on_command_sent (switch_front_headlamp_on id) p = record { pending = some (pending_of true id) }
on_command_sent (switch_front_headlamp_off id) p = record { pending = some (pending_of false id) }
on_command_sent start_wiper p = p
on_command_sent stop_wiper p = p

-- `response_type`: the direction and whether it is an ACK, or why the kind is no response.
abbrev pub response_type : ℕ → (Bool × Bool) ⊎ IgnoreReason
response_type kind =
    if kind == kind_ack_on
    then inl (true, true)
    else if kind == kind_ack_off
    then inl (false, true)
    else if kind == kind_nack_on
    then inl (true, false)
    else if kind == kind_nack_off
    then inl (false, false)
    else if kind == kind_cmd_on || kind == kind_cmd_off
    then inr command_frame
    else inr unknown_kind

abbrev pub is_confirmed : PhysicalCarVocabulary → Bool
is_confirmed (PhysicalCarVocabulary.front_headlamp_command_confirmed _) = true
is_confirmed _ = false

abbrev pub bool_eq : Bool → Bool → Bool
bool_eq true b = b
bool_eq false b = not b

abbrev refuse :
    FrontHeadlampPolicy → IgnoreReason → FrontHeadlampPolicy × FrontHeadlampPolicyDecision
refuse p reason = (p, ignore reason)

abbrev pub mapped :
    FrontHeadlampPolicy
    → Bool
    → FrontHeadlampActuationPayload
    → Option PhysicalCarVocabulary
    → FrontHeadlampPolicy × FrontHeadlampPolicyDecision
mapped p is_ack payload none = refuse p non_ingress_kind
mapped p is_ack payload (some physical) =
    if bool_eq is_ack (is_confirmed physical)
    then (record { pending = none }, accept physical payload.session_id payload.sequence_no)
    else refuse p ack_kind_mapping_mismatch

unfoldable pub correlate :
    FrontHeadlampPolicy
    → Bool
    → Bool
    → FrontHeadlampActuationPayload
    → Option PendingFrontHeadlampCommand
    → FrontHeadlampPolicy × FrontHeadlampPolicyDecision
unfolding payload_to_physical
correlate p response_on_command is_ack payload none = refuse p no_pending_command
correlate p response_on_command is_ack payload (some pending) =
    if not (pending.session == payload.session_id) || not (pending.sequence == payload.sequence_no)
    then refuse p correlation_mismatch
    else if not (bool_eq pending.on_command response_on_command)
    then refuse p direction_mismatch
    else mapped p is_ack payload (payload_to_physical payload)

unfoldable pub judge :
    (Bool × Bool) ⊎ IgnoreReason
    → FrontHeadlampActuationPayload
    → FrontHeadlampPolicy
    → FrontHeadlampPolicy × FrontHeadlampPolicyDecision
unfolding correlate
judge (inr reason) payload p = refuse p reason
judge (inl (response_on_command, is_ack)) payload p =
    correlate p response_on_command is_ack payload p.pending

unfoldable pub on_response :
    FrontHeadlampActuationPayload
    → FrontHeadlampPolicy
    → FrontHeadlampPolicy × FrontHeadlampPolicyDecision
unfolding judge
on_response payload p = judge (response_type payload.kind) payload p
