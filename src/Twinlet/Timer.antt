-- ===== src/Twinlet/Timer.antt =====
-- The ACK timer of crates/common/src/twin_runtime/headlamp_actor.rs, and what a tell
-- brings back.
use sdv_simulation.Prelude.{
  ℕ, Bool, true, false, leb, List, [], ◌∷◌, none, some, ◌≡◌, refl, arith, inl, inr, Bool-cases,
}
use sdv_simulation.Physics.{
  Instant, Duration, lux_on_threshold, lux_off_threshold, front_headlamp_on_ack_wait,
  front_headlamp_off_ack_wait,
}
use sdv_simulation.Modes.{AssemblyId}
use sdv_simulation.Logs.{
  FrontHeadlampSwitchDirection, FrontHeadlampIncompleteCause, alert_incomplete,
}
use sdv_simulation.Twin.{ZoneSpontaneousEvent, DigitalTwinCarVocabulary}
use sdv_simulation.Zones.Headlamp.{
  HeadlampMessage, HeadlampContext, HeadlampState, HeadlampOutcome, on_receiving_message,
  apply_in_place, evaluate_lux, recover_incomplete,
}
use sdv_simulation.Zones.Headlamp.Acks.{awaits_ack, requested, on_receiving_message-IsValid}
use sdv_simulation.Zones.Headlamp.Acks
use sdv_simulation.Twinlet.{
  HeadlampActorState, timer_for, timer_of_state, handle_apply, handle_ack_wait_elapsed,
}

-- The twinlet's headlamp is valid, and its ACK timer is the one that the lamp's state asks for.
pub record IsArmed (s : HeadlampActorState) : Type 0 where
  pub lamp : Acks.IsValid s.ctx
  pub timer : s.ack_timer ≡ timer_of_state s.ctx.state

timer_for-valid : (c : HeadlampContext) → Acks.IsValid c → timer_for c ≡ timer_of_state c.state
timer_for-valid c v = ground arith

-- Every tell keeps the twinlet's ACK timer in step with its lamp: armed with the direction and
-- the wait of the request in flight, and not armed where none is.
pub handle_apply-IsArmed :
    (m : HeadlampMessage) (now : Instant) (turn_id tell_attempt : ℕ) (s : HeadlampActorState)
    → IsArmed s
    → IsArmed (handle_apply m now turn_id tell_attempt s).0
unfolding handle_apply
handle_apply-IsArmed m now turn_id tell_attempt s v =
    let lamp = on_receiving_message-IsValid s.ctx m now v.lamp in
    elim (Bool-cases s.silent) [
      | inl e ↦ rw e (record { lamp = v.lamp; timer = v.timer })
      | inr e ↦ rw e (record {
        lamp = lamp;
        timer = timer_for-valid (on_receiving_message s.ctx m now).ctx lamp;
      })
    ]

-- The state that a request falls back to.
abbrev pub confirmed_before : FrontHeadlampSwitchDirection → HeadlampState
confirmed_before FrontHeadlampSwitchDirection.on = HeadlampState.ready
confirmed_before FrontHeadlampSwitchDirection.off = HeadlampState.on

-- The reading at which a settled lamp is to be switched in that direction.
abbrev pub crosses : FrontHeadlampSwitchDirection → ℕ → Bool
crosses FrontHeadlampSwitchDirection.on lux = leb lux lux_on_threshold
crosses FrontHeadlampSwitchDirection.off lux = leb lux_off_threshold lux

abbrev pub ack_wait : FrontHeadlampSwitchDirection → Duration
ack_wait FrontHeadlampSwitchDirection.on = front_headlamp_on_ack_wait
ack_wait FrontHeadlampSwitchDirection.off = front_headlamp_off_ack_wait

-- What the brain is told of an elapsed wait, with the zone's context and outcomes.
abbrev pub time_out :
    FrontHeadlampSwitchDirection → HeadlampContext → List HeadlampOutcome → DigitalTwinCarVocabulary
time_out d ctx outcomes = DigitalTwinCarVocabulary.zone_spontaneous AssemblyId.headlamp (
    ZoneSpontaneousEvent.headlamp d FrontHeadlampIncompleteCause.timed_out
      (record { ctx = ctx; outcomes = outcomes }))

-- A request that nobody answers, from the reading that brings it about to the end of its wait. A
-- twinlet that answers is told of a reading at which its settled lamp is to be switched: it requests
-- the switch and arms the timer with the request's direction and wait, in place of any other. When
-- that wait elapses, the lamp is settled in the state that it had before the reading, no timer is
-- left, and the brain is told of the direction's time-out, with one warning of it.
pub unanswered_request_reverts :
    (d : FrontHeadlampSwitchDirection) (lux turn_id tell_attempt : ℕ) (now later : Instant)
    (s : HeadlampActorState)
    → s.silent ≡ false
    → s.ctx.state ≡ confirmed_before d
    → crosses d lux ≡ true
    → let asked = (handle_apply (HeadlampMessage.ambient_lux lux) now turn_id tell_attempt s).0 in
      let told = handle_ack_wait_elapsed d later asked in
      let before : HeadlampContext = record { state = s.ctx.state; ack_pending_since = none } in
      (asked.ctx ≡ record { state = requested d; ack_pending_since = some now })
      × (asked.ack_timer ≡ some (record { direction = d; wait = ack_wait d }))
      × (told.0.ctx ≡ before)
      × (told.0.ack_timer ≡ none)
      × (told.1
          ≡ some (
              time_out d before (
                HeadlampOutcome.log_warning
                  (alert_incomplete d FrontHeadlampIncompleteCause.timed_out)
                ∷ [])))
unfolding handle_apply handle_ack_wait_elapsed on_receiving_message apply_in_place evaluate_lux
    recover_incomplete
unanswered_request_reverts FrontHeadlampSwitchDirection.on lux t k now later s speaks here dark =
    rw (speaks, here, dark) (refl, refl, refl, refl, refl)
unanswered_request_reverts FrontHeadlampSwitchDirection.off lux t k now later s speaks here light =
    rw (speaks, here, light) (refl, refl, refl, refl, refl)
