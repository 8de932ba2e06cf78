-- ===== src/Zones/Headlamp/Acks.antt =====
-- What the headlamp zone promises: crates/common/src/vehicle_state/front_headlamp.rs.
use sdv_simulation.Prelude.{
  ℕ, ◌+◌, ◌≤◌, ◌<◌, Bool, true, false, List, [], ◌∷◌, none, some, ◌≡◌, ◌↔◌, arith, is_some,
}
use sdv_simulation.Physics.{Instant, from_secs}
use sdv_simulation.Logs.{
  FrontHeadlampSwitchDirection, FrontHeadlampIncompleteCause, alert_incomplete,
}
use sdv_simulation.Zones.Headlamp.{
  HeadlampState, HeadlampMessage, HeadlampOutcome, HeadlampContext, on_receiving_message,
}

-- A request is in flight.
abbrev pub awaits_ack : HeadlampState → Bool
awaits_ack HeadlampState.on_requested = true
awaits_ack HeadlampState.off_requested = true
awaits_ack _ = false

-- The ACK clock runs exactly while a request is in flight.
pub record IsValid (c : HeadlampContext) : Type 0 where
  pub clocked : is_some c.ack_pending_since ≡ awaits_ack c.state

-- Every message, in every state, keeps the ACK clock in step with the state.
pub on_receiving_message-IsValid :
    (c : HeadlampContext) (m : HeadlampMessage) (now : Instant)
    → IsValid c
    → IsValid (on_receiving_message c m now).ctx
unfolding on_receiving_message
on_receiving_message-IsValid c HeadlampMessage.become_on now v = ground arith
on_receiving_message-IsValid c (HeadlampMessage.ambient_lux lux) now v = ground arith
on_receiving_message-IsValid c (HeadlampMessage.actuation_incomplete d k) now v = ground arith
on_receiving_message-IsValid c HeadlampMessage.timer_tick now v = ground arith
on_receiving_message-IsValid c _ now v = ground arith

-- A command leaves the zone exactly when the zone moves from a settled state to the request of
-- that command: no request is silent, and none is repeated.
on_receiving_message-requests :
    (c : HeadlampContext) (m : HeadlampMessage) (now : Instant)
    → let r = on_receiving_message c m now in
      ((r.outcomes ≡ HeadlampOutcome.request_on ∷ [])
        ↔ ((c.state ≡ HeadlampState.ready) × (r.ctx.state ≡ HeadlampState.on_requested)))
      × ((r.outcomes ≡ HeadlampOutcome.request_off ∷ [])
          ↔ ((c.state ≡ HeadlampState.on) × (r.ctx.state ≡ HeadlampState.off_requested)))
unfolding on_receiving_message
on_receiving_message-requests c HeadlampMessage.become_on now = ground arith
on_receiving_message-requests c (HeadlampMessage.ambient_lux lux) now = ground arith
on_receiving_message-requests c (HeadlampMessage.actuation_incomplete d k) now = ground arith
on_receiving_message-requests c HeadlampMessage.timer_tick now = ground arith
on_receiving_message-requests c _ now = ground arith

-- Lux strictly between the two thresholds changes nothing in any state.
pub deadband :
    (c : HeadlampContext) (lux : ℕ) (now : Instant)
    → 840 < lux
    → lux < 860
    → let r = on_receiving_message c (HeadlampMessage.ambient_lux lux) now in
      (r.ctx ≡ c) × (r.outcomes ≡ [])
unfolding on_receiving_message
deadband c lux now low high = ground arith

-- Where a request that is given up leaves the lamp, and the warning that says so.
abbrev pub GivenUp : FrontHeadlampSwitchDirection → HeadlampContext → List HeadlampOutcome → Type 0
GivenUp FrontHeadlampSwitchDirection.on c os =
    (c.state ≡ HeadlampState.ready)
    × (c.ack_pending_since ≡ none)
    × (os
        ≡ HeadlampOutcome.log_warning (
            alert_incomplete FrontHeadlampSwitchDirection.on FrontHeadlampIncompleteCause.timed_out)
          ∷ [])
GivenUp FrontHeadlampSwitchDirection.off c os =
    (c.state ≡ HeadlampState.on)
    × (c.ack_pending_since ≡ none)
    × (os
        ≡ HeadlampOutcome.log_warning (
            alert_incomplete FrontHeadlampSwitchDirection.off
              FrontHeadlampIncompleteCause.timed_out)
          ∷ [])

abbrev pub requested : FrontHeadlampSwitchDirection → HeadlampState
requested FrontHeadlampSwitchDirection.on = HeadlampState.on_requested
requested FrontHeadlampSwitchDirection.off = HeadlampState.off_requested

-- No request waits for ever: from two seconds after it was made a heartbeat gives it up with one
-- warning, back to the lamp's last confirmed state; before that a heartbeat changes nothing.
pub tick_settles :
    (d : FrontHeadlampSwitchDirection) (c : HeadlampContext) (since now : Instant)
    → c.state ≡ requested d
    → c.ack_pending_since ≡ some since
    → let r = on_receiving_message c HeadlampMessage.timer_tick now in
      (since + from_secs 2 ≤ now → GivenUp d r.ctx r.outcomes)
      × (now < since + from_secs 2 → (r.ctx ≡ c) × (r.outcomes ≡ []))
unfolding on_receiving_message
tick_settles FrontHeadlampSwitchDirection.on c since now s p =
    (λ h. ground arith, λ h. ground arith)
tick_settles FrontHeadlampSwitchDirection.off c since now s p =
    (λ h. ground arith, λ h. ground arith)
