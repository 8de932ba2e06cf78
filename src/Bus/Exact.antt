-- ===== src/Bus/Exact.antt =====
-- Exactly which responses the policy accepts: `FrontHeadlampPolicy::on_response` of
-- devices/front_headlamp/policy.rs in crates/vehicle_device_bus/src.
use sdv_simulation.Prelude.{
  ◌≡◌, ◌⊎◌, inl, inr, refl, sym, ◌∙◌, ap, Bool, true, false, not, ◌||◌, Option, none, some, ◌==◌,
  Bool-cases, arith,
}
use sdv_simulation.Bus.{FrontHeadlampActuationPayload, payload_to_physical}
use sdv_simulation.Bus.Wire.{response_kind, heard_as}
use sdv_simulation.Bus.Policy.{
  FrontHeadlampPolicy, FrontHeadlampPolicyDecision, PendingFrontHeadlampCommand, accept, ignore,
  correlate, judge, on_response, IgnoreReason, correlation_mismatch, direction_mismatch,
  no_pending_command, response_type, bool_eq,
}

-- The pending command that a response of that direction answers.
abbrev pub answers : Bool → FrontHeadlampActuationPayload → PendingFrontHeadlampCommand
answers on r = record { session = r.session_id; sequence = r.sequence_no; on_command = on }

-- A response is due: the command that it answers is pending, and its kind is a response to that.
abbrev pub IsDue : FrontHeadlampPolicy → FrontHeadlampActuationPayload → Bool → Bool → Type 0
IsDue p r on is_ack = (p.pending ≡ some (answers on r)) × (r.kind ≡ response_kind on is_ack)

abbrev pub no_command : FrontHeadlampPolicy
no_command = record { pending = none }

correlate_due :
    (p : FrontHeadlampPolicy) (r : FrontHeadlampActuationPayload) (on is_ack : Bool)
    → r.kind ≡ response_kind on is_ack
    → correlate p on is_ack r (some (answers on r))
      ≡ (no_command, accept (heard_as on is_ack) r.session_id r.sequence_no)
unfolding correlate payload_to_physical
correlate_due p r true true e = ground arith
correlate_due p r true false e = ground arith
correlate_due p r false true e = ground arith
correlate_due p r false false e = ground arith

typed_due :
    (r : FrontHeadlampActuationPayload) (on is_ack : Bool)
    → r.kind ≡ response_kind on is_ack
    → response_type r.kind ≡ inl (on, is_ack)
typed_due r true true e = rw e refl
typed_due r true false e = rw e refl
typed_due r false true e = rw e refl
typed_due r false false e = rw e refl

due_accepted :
    (p : FrontHeadlampPolicy) (r : FrontHeadlampActuationPayload) (on is_ack : Bool)
    → IsDue p r on is_ack
    → on_response r p ≡ (no_command, accept (heard_as on is_ack) r.session_id r.sequence_no)
unfolding on_response judge
due_accepted p r on is_ack (was, kind) =
    rw (typed_due r on is_ack kind, was)
      (correlate_due (record { pending = some (answers on r) }) r on is_ack kind)

same_direction : (a b : Bool) → bool_eq a b ≡ true → a ≡ b
same_direction true b e = sym e
same_direction false true e = cc
same_direction false false e = refl

answered :
    (r : FrontHeadlampActuationPayload) (q : PendingFrontHeadlampCommand) (on : Bool)
    → q.session ≡ r.session_id
    → q.sequence ≡ r.sequence_no
    → q.on_command ≡ on
    → some q ≡ some (answers on r)
answered r q on session sequence direction =
    (λ i. some (record { session = session i; sequence = sequence i; on_command = direction i }))

module _ (p : FrontHeadlampPolicy) (r : FrontHeadlampActuationPayload) where
  -- The response is refused and the policy stays.
  abbrev Refused : FrontHeadlampPolicy × FrontHeadlampPolicyDecision → Type 0
  Refused d = (why : IgnoreReason) × (d ≡ (p, ignore why))

  type_kind :
      (on is_ack : Bool)
      → response_type r.kind ≡ inl (on, is_ack)
      → r.kind ≡ response_kind on is_ack
  type_kind true true e = ground (arith, e)
  type_kind true false e = ground (arith, e)
  type_kind false true e = ground (arith, e)
  type_kind false false e = ground (arith, e)

  session_own :
      (q : PendingFrontHeadlampCommand)
      → not (q.session == r.session_id) || not (q.sequence == r.sequence_no) ≡ false
      → q.session ≡ r.session_id
  session_own q e = ground (arith, e)

  sequence_own :
      (q : PendingFrontHeadlampCommand)
      → not (q.session == r.session_id) || not (q.sequence == r.sequence_no) ≡ false
      → q.sequence ≡ r.sequence_no
  sequence_own q e = ground (arith, e)

  correlate_decides :
      (on is_ack : Bool) (o : Option PendingFrontHeadlampCommand)
      → (o ≡ some (answers on r)) ⊎ Refused (correlate p on is_ack r o)
  unfolding correlate
  correlate_decides on is_ack none = inr (no_pending_command, refl)
  correlate_decides on is_ack (some q) =
      elim (Bool-cases (not (q.session == r.session_id) || not (q.sequence == r.sequence_no))) [
        | inl foreign ↦ inr (correlation_mismatch, rw foreign refl)
        | inr own ↦ elim (Bool-cases (bool_eq q.on_command on)) [
          | inl along ↦ inl (
              answered r q on (session_own q own) (sequence_own q own)
                (same_direction q.on_command on along))
          | inr against ↦ inr (direction_mismatch, rw (own, against) refl)
        ]
      ]

  judge_decides :
      (o : (Bool × Bool) ⊎ IgnoreReason)
      → response_type r.kind ≡ o
      → ((on : Bool) × (is_ack : Bool) × IsDue p r on is_ack) ⊎ Refused (judge o r p)
  unfolding judge
  judge_decides (inr why) e = inr (why, refl)
  judge_decides (inl (on, is_ack)) e = elim (correlate_decides on is_ack p.pending) [
    | inl was ↦ inl (on, is_ack, (was, type_kind on is_ack e))
    | inr refused ↦ inr refused
  ]

  -- The policy does one of two things with a response. Where the command that it answers is
  -- pending, with its session, number and direction, and its kind is an ACK or a NACK, it is
  -- accepted as that, and nothing is pending any more. Everything else is refused, and the policy
  -- stays as it was.
  pub on_response_exact :
      ((on : Bool) × (is_ack : Bool) × IsDue p r on is_ack
        × (on_response r p ≡ (no_command, accept (heard_as on is_ack) r.session_id r.sequence_no)))
      ⊎ (((on is_ack : Bool) → ¬ IsDue p r on is_ack)
          × ((why : IgnoreReason) × (on_response r p ≡ (p, ignore why))))
  unfolding on_response
  on_response_exact = elim (judge_decides (response_type r.kind) refl) [
    | inl (on, is_ack, due) ↦ inl (on, is_ack, due, due_accepted p r on is_ack due)
    | inr (why, refused) ↦ inr (
      λ on is_ack due.
          (let accepted = ap (λ d. d.1) (sym (due_accepted p r on is_ack due) ∙ refused) in cc),
      (why, refused),
    )
  ]
