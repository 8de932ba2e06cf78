-- ===== src/Gateway/Superseded.antt =====
-- Two headlamp commands in flight: the policy of the gateway holds the newer one only
-- (crates/gateway/src/gateway_runtime.rs, front_headlamp/policy.rs).
use sdv_simulation.Prelude.{ℕ, ◌≡◌, ◌≢◌, ◌∙◌, ◌⊎◌, refl, ap, Bool, true, false, none, some}
use sdv_simulation.Prelude.Word.{as_u16, as_u32}
use sdv_simulation.Ingress.{PhysicalCarVocabulary}
use sdv_simulation.Actuation.{CorrelationId}
use sdv_simulation.Bus.Policy.{
  FrontHeadlampPolicy, FrontHeadlampPolicyDecision, accept, ignore, on_command_sent, on_response,
  pending_of,
}
use sdv_simulation.Bus.Wire.{command_of, response_to, foreign_response_ignored}
use sdv_simulation.Can.{CanBus, IsLawful}
use sdv_simulation.Actuators.{Floats, should_respond}
use sdv_simulation.Actuators.LogQueue.{LogQueue}
use sdv_simulation.Actuators.Headlamp.{Draws, round}
use sdv_simulation.Actuators.Answer.{command_frame, command_answered}
use sdv_simulation.Gateway.{hear_decision, hear_payload, read_frame}
use sdv_simulation.Gateway.Egress.{publish}
use sdv_simulation.Gateway.Confirmation.{read_headlamp, published_command}

-- The two commands are told apart on the wire.
abbrev pub Differ : CorrelationId → CorrelationId → Type 0
Differ new old =
    (as_u16 new.session_id ≢ as_u16 old.session_id)
    ⊎ (as_u32 new.sequence_no ≢ as_u32 old.sequence_no)

hear_not_accepted :
    (r : FrontHeadlampPolicy × FrontHeadlampPolicyDecision) (p : FrontHeadlampPolicy)
    → r.0 ≡ p
    → ((heard : PhysicalCarVocabulary) (s n : ℕ) → r.1 ≢ accept heard s n)
    → hear_decision r ≡ (p, none)
hear_not_accepted (p', accept heard s n) p same never = absurd (never heard s n refl)
hear_not_accepted (p', ignore why) p same never = ap (λ x. (x, none)) same

pending_after_sent :
    (on : Bool) (id : CorrelationId) (p : FrontHeadlampPolicy)
    → (on_command_sent (command_of on id) p).pending ≡ some (pending_of on id)
unfolding on_command_sent
pending_after_sent true id p = refl
pending_after_sent false id p = refl

stale_passed_over :
    (p : FrontHeadlampPolicy) (on_new on_old is_ack : Bool) (new old : CorrelationId)
    → Differ new old
    → let sent = on_command_sent (command_of on_new new) p in
      hear_payload sent (some (response_to on_old is_ack old)) ≡ (sent, none)
unfolding hear_payload
stale_passed_over p on_new on_old is_ack new old differ =
    let sent = on_command_sent (command_of on_new new) p in
    let (same, never) =
      foreign_response_ignored sent (pending_of on_new new) (response_to on_old is_ack old)
        (pending_after_sent on_new new p) differ in
    hear_not_accepted (on_response (response_to on_old is_ack old) sent) sent same never

module _ (bus : CanBus) (lawful : IsLawful bus) (floats : Floats) (d : Draws bus floats) where
  -- When a newer headlamp command, of other wire numbers, is published before the actuator's
  -- response to an older one is read, that response is passed over, and the newer command stays
  -- pending.
  pub older_response_dropped :
      (policy : FrontHeadlampPolicy) (q : LogQueue) (on_old on_new : Bool) (old new : CorrelationId)
      → should_respond floats d.dont_respond_prob d.respond_draw ≡ true
      → Differ new old
      → let first = (publish bus policy (command_of on_old old)).0 in
        let second = (publish bus first (command_of on_new new)).0 in
        (f : bus.Frame) × (g : bus.Frame) × ((publish bus policy (command_of on_old old)).1
          ≡ some f)
        × ((round bus floats d (some f) q).1 ≡ some g)
        × (read_frame bus second (some g) ≡ (second, none))
        × (second.pending ≡ some (pending_of on_new new))
  older_response_dropped policy q on_old on_new old new will differ =
      let (f, made, there) = command_frame bus lawful on_old old in
      let (g, answered, back) = command_answered bus lawful floats d f q on_old old will there in
      let (f', made', _) = command_frame bus lawful on_new new in
      let first = published_command bus policy on_old old f made in
      let second = λ (p : FrontHeadlampPolicy). published_command bus p on_new new f' made' in
      (
        f,
        g,
        ap (λ r. r.1) first,
        answered,
        rw (second (publish bus policy (command_of on_old old)).0)
            (read_headlamp bus _ g _ back ∙ stale_passed_over _ on_new on_old _ new old differ),
        rw (second (publish bus policy (command_of on_old old)).0)
            (pending_after_sent on_new new _),
      )
