-- ===== src/Twinlet/Stale.antt =====
-- A wait that has already elapsed when its request is settled: the timer's message is in the
-- mailbox of crates/common/src/twin_runtime/headlamp_actor.rs, where an abort cannot reach it.
use sdv_simulation.Prelude.{ℕ, true, false, [], none, some, ◌≡◌, refl}
use sdv_simulation.Physics.{Instant}
use sdv_simulation.Logs.{FrontHeadlampSwitchDirection}
use sdv_simulation.Zones.Headlamp.{
  HeadlampMessage, on_receiving_message, apply_in_place, evaluate_lux, recover_incomplete,
}
use sdv_simulation.Zones.Headlamp.Acks.{requested}
use sdv_simulation.Twinlet.{HeadlampActorState, handle_apply, handle_ack_wait_elapsed}
use sdv_simulation.Twinlet.Timer.{IsArmed, crosses, ack_wait, time_out}

abbrev pub opposite : FrontHeadlampSwitchDirection → FrontHeadlampSwitchDirection
opposite FrontHeadlampSwitchDirection.on = FrontHeadlampSwitchDirection.off
opposite FrontHeadlampSwitchDirection.off = FrontHeadlampSwitchDirection.on

-- The acknowledgement of a switch.
abbrev pub ack_of : FrontHeadlampSwitchDirection → HeadlampMessage
ack_of FrontHeadlampSwitchDirection.on = HeadlampMessage.ack_on
ack_of FrontHeadlampSwitchDirection.off = HeadlampMessage.ack_off

abbrev pub tell_twinlet : HeadlampMessage → Instant → ℕ → HeadlampActorState → HeadlampActorState
tell_twinlet m now turn_id s = (handle_apply m now turn_id 0 s).0

-- Three messages to a twinlet that answers: the ACK of a switch, a reading at which the lamp is to be
-- switched back, and the elapsed wait of the acknowledged switch. The reading has the twinlet request
-- the switch back and arm that request's timer; the old wait then leaves the new request in flight,
-- but forgets its timer, and tells the brain of a time-out of the switch that was acknowledged.
pub stale_elapse_disarms :
    (d : FrontHeadlampSwitchDirection) (lux turn_id : ℕ) (acked now later : Instant)
    (s : HeadlampActorState)
    → s.silent ≡ false
    → crosses (opposite d) lux ≡ true
    → let asked =
        tell_twinlet
          (HeadlampMessage.ambient_lux lux)
          now
          turn_id
          (tell_twinlet (ack_of d) acked turn_id s) in
      let told = handle_ack_wait_elapsed d later asked in
      (asked.ctx ≡ record { state = requested (opposite d); ack_pending_since = some now })
      × (asked.ack_timer ≡ some (record { direction = opposite d; wait = ack_wait (opposite d) }))
      × (told.0.ctx ≡ asked.ctx)
      × (told.0.ack_timer ≡ none)
      × (told.1 ≡ some (time_out d asked.ctx []))
      × (¬ IsArmed told.0)
unfolding handle_apply handle_ack_wait_elapsed on_receiving_message apply_in_place evaluate_lux
    recover_incomplete
stale_elapse_disarms FrontHeadlampSwitchDirection.on lux t acked now later s speaks light =
    rw (speaks, light) (refl, refl, refl, refl, refl, λ a. (let k = a.timer in cc))
stale_elapse_disarms FrontHeadlampSwitchDirection.off lux t acked now later s speaks dark =
    rw (speaks, dark) (refl, refl, refl, refl, refl, λ a. (let k = a.timer in cc))
