-- ===== src/Zones/Headlamp.antt =====
-- The front-headlamp zone: crates/common/src/vehicle_state/front_headlamp.rs. Each `&mut self`
-- method returns the new context and the outcomes that it pushes.
pub mod Acks
use sdv_simulation.Prelude.{
  ℕ, Bool, true, false, List, [], ◌∷◌, Option, none, some, leb, if◌then◌else◌,
}
use sdv_simulation.Physics.{
  Instant, Duration, duration_since, lux_on_threshold, lux_off_threshold,
  front_headlamp_on_ack_wait, front_headlamp_off_ack_wait,
}
use sdv_simulation.Logs.{
  LogText, FrontHeadlampSwitchDirection, FrontHeadlampIncompleteCause, alert_incomplete,
}

pub data HeadlampState : Type 0 where
  off ready on_requested on off_requested : HeadlampState

pub data HeadlampMessage : Type 0 where
  become_on become_off : HeadlampMessage
  ambient_lux : ℕ → HeadlampMessage
  ack_on ack_off : HeadlampMessage
  actuation_incomplete :
      FrontHeadlampSwitchDirection → FrontHeadlampIncompleteCause → HeadlampMessage
  timer_tick reset_for_ignition_off : HeadlampMessage

pub data HeadlampOutcome : Type 0 where
  request_on request_off : HeadlampOutcome
  log_warning : LogText → HeadlampOutcome

pub record HeadlampContext : Type 0 where
  pub state : HeadlampState
  pub ack_pending_since : Option Instant

pub record HeadlampZoneReply : Type 0 where
  pub ctx : HeadlampContext
  pub outcomes : List HeadlampOutcome

abbrev pub default : HeadlampContext
default = record { state = HeadlampState.off; ack_pending_since = none }

abbrev settle : HeadlampState → HeadlampContext
settle s = record { state = s; ack_pending_since = none }

abbrev apply_become_on : HeadlampContext → HeadlampContext
apply_become_on c = settle HeadlampState.ready

abbrev apply_become_off : HeadlampContext → HeadlampContext
apply_become_off c = settle HeadlampState.off

abbrev apply_on_ack : HeadlampContext → HeadlampContext
apply_on_ack c = settle HeadlampState.on

abbrev apply_off_ack : HeadlampContext → HeadlampContext
apply_off_ack c = settle HeadlampState.ready

abbrev apply_reset_for_ignition_off : HeadlampContext → HeadlampContext
apply_reset_for_ignition_off c = settle HeadlampState.off

abbrev pub Effect : Type 0
Effect = HeadlampContext × List HeadlampOutcome

unfoldable pub evaluate_lux : HeadlampState → ℕ → Instant → HeadlampContext → Effect
evaluate_lux HeadlampState.ready lux now c =
    if leb lux lux_on_threshold
    then (
      record { state = HeadlampState.on_requested; ack_pending_since = some now },
      HeadlampOutcome.request_on ∷ [],
    )
    else (c, [])
evaluate_lux HeadlampState.on lux now c =
    if leb lux_off_threshold lux
    then (
      record { state = HeadlampState.off_requested; ack_pending_since = some now },
      HeadlampOutcome.request_off ∷ [],
    )
    else (c, [])
evaluate_lux _ lux now c = (c, [])

abbrev matches_pending : HeadlampState → FrontHeadlampSwitchDirection → Bool
matches_pending HeadlampState.on_requested FrontHeadlampSwitchDirection.on = true
matches_pending HeadlampState.off_requested FrontHeadlampSwitchDirection.off = true
matches_pending _ _ = false

-- Where a failed request leaves the lamp.
abbrev fall_back : FrontHeadlampSwitchDirection → HeadlampState
fall_back FrontHeadlampSwitchDirection.on = HeadlampState.ready
fall_back FrontHeadlampSwitchDirection.off = HeadlampState.on

unfoldable pub recover_incomplete :
    FrontHeadlampSwitchDirection → FrontHeadlampIncompleteCause → HeadlampContext → Effect
recover_incomplete direction cause c =
    if matches_pending c.state direction
    then (
      settle (fall_back direction),
      HeadlampOutcome.log_warning (alert_incomplete direction cause) ∷ [],
    )
    else (c, [])

abbrev ack_wait_elapsed : Instant → Instant → Duration → Bool
ack_wait_elapsed since now wait = leb wait (duration_since now since)

-- The match of `on_timer_tick` on the state, once an ACK is pending since `since`.
unfoldable pub tick_pending : HeadlampState → Instant → Instant → HeadlampContext → Effect
unfolding recover_incomplete
tick_pending HeadlampState.on_requested since now c =
    if ack_wait_elapsed since now front_headlamp_on_ack_wait
    then recover_incomplete FrontHeadlampSwitchDirection.on FrontHeadlampIncompleteCause.timed_out c
    else (c, [])
tick_pending HeadlampState.off_requested since now c =
    if ack_wait_elapsed since now front_headlamp_off_ack_wait
    then recover_incomplete FrontHeadlampSwitchDirection.off FrontHeadlampIncompleteCause.timed_out
        c
    else (c, [])
tick_pending _ since now c = (c, [])

unfoldable pub on_timer_tick : Instant → HeadlampContext → Effect
unfolding tick_pending
on_timer_tick now c = elim c.ack_pending_since [
  | none ↦ (c, [])
  | some since ↦ tick_pending c.state since now c
]

unfoldable pub apply_in_place : HeadlampMessage → HeadlampState → Instant → HeadlampContext → Effect
unfolding evaluate_lux recover_incomplete on_timer_tick
apply_in_place HeadlampMessage.become_on prev_state now c = (apply_become_on c, [])
apply_in_place HeadlampMessage.become_off prev_state now c = (apply_become_off c, [])
apply_in_place (HeadlampMessage.ambient_lux lux) prev_state now c =
    evaluate_lux prev_state lux now c
apply_in_place HeadlampMessage.ack_on prev_state now c = (apply_on_ack c, [])
apply_in_place HeadlampMessage.ack_off prev_state now c = (apply_off_ack c, [])
apply_in_place (HeadlampMessage.actuation_incomplete direction cause) prev_state now c =
    recover_incomplete direction cause c
apply_in_place HeadlampMessage.timer_tick prev_state now c = on_timer_tick now c
apply_in_place HeadlampMessage.reset_for_ignition_off prev_state now c =
    (apply_reset_for_ignition_off c, [])

unfoldable pub on_receiving_message :
    HeadlampContext → HeadlampMessage → Instant → HeadlampZoneReply
unfolding apply_in_place
on_receiving_message self msg now =
    let (next, outcomes) = apply_in_place msg self.state now self in
    record { ctx = next; outcomes = outcomes }
