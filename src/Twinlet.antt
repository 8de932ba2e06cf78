-- ===== src/Twinlet.antt =====
-- The zone twinlets: crates/common/src/twin_runtime/headlamp_actor.rs and
-- wiper_actor.rs. A tell that reaches the twinlet gives the message that it tells back; a timer is
-- the direction that its `AckWaitElapsed` carries and the wait that it was armed with. The brain's
-- mailbox takes every message here: a brain that has stopped takes its twinlets with it.
pub mod Timer
pub mod Stale
use sdv_simulation.Prelude.{ℕ, Bool, true, false, Option, none, some, if◌then◌else◌}
use sdv_simulation.Physics.{
  Instant, Duration, front_headlamp_on_ack_wait, front_headlamp_off_ack_wait,
}
use sdv_simulation.Modes.{AssemblyId}
use sdv_simulation.Logs.{FrontHeadlampSwitchDirection, FrontHeadlampIncompleteCause}
use sdv_simulation.Zones.Headlamp.{
  HeadlampState, HeadlampMessage, HeadlampContext, HeadlampZoneReply,
}
use sdv_simulation.Zones.Headlamp
use sdv_simulation.Zones.Wiper.{WiperMessage, WiperContext}
use sdv_simulation.Zones.Wiper
use sdv_simulation.Twin.{ZoneReply, ZoneSpontaneousEvent, DigitalTwinCarVocabulary}

pub record AckTimer : Type 0 where
  pub direction : FrontHeadlampSwitchDirection
  pub wait : Duration

pub data HeadlampActorMsg : Type 0 where
  -- message, now, turn_id, tell_attempt
  apply : HeadlampMessage → Instant → ℕ → ℕ → HeadlampActorMsg
  ack_wait_elapsed : FrontHeadlampSwitchDirection → HeadlampActorMsg

-- `knows_brain`: `brain` is `Some`.
pub record HeadlampActorState : Type 0 where
  pub ctx : HeadlampContext
  pub silent : Bool
  pub knows_brain : Bool
  pub ack_timer : Option AckTimer

abbrev pub new : HeadlampContext → Bool → HeadlampActorState
new ctx silent = record { ctx = ctx; silent = silent; knows_brain = false; ack_timer = none }

-- The timer that `maybe_arm_ack_timer` leaves armed, after it has aborted the old one.
abbrev pub timer_of_state : HeadlampState → Option AckTimer
timer_of_state HeadlampState.on_requested =
    some (record { direction = FrontHeadlampSwitchDirection.on; wait = front_headlamp_on_ack_wait })
timer_of_state HeadlampState.off_requested =
    some
      (record { direction = FrontHeadlampSwitchDirection.off; wait = front_headlamp_off_ack_wait })
timer_of_state _ = none

abbrev pub timer_for : HeadlampContext → Option AckTimer
timer_for ctx = elim ctx.ack_pending_since [ none ↦ none | some since ↦ timer_of_state ctx.state ]

abbrev pub Told : Type 0
Told = HeadlampActorState × Option DigitalTwinCarVocabulary

abbrev replying : HeadlampZoneReply → ℕ → ℕ → HeadlampActorState → Told
replying zone_reply turn_id tell_attempt s = (
  record s { ctx = zone_reply.ctx; knows_brain = true; ack_timer = timer_for zone_reply.ctx },
  some (
      DigitalTwinCarVocabulary.zone_ready AssemblyId.headlamp turn_id tell_attempt
        (ZoneReply.headlamp zone_reply)),
)

unfoldable pub handle_apply : HeadlampMessage → Instant → ℕ → ℕ → HeadlampActorState → Told
unfolding Headlamp.on_receiving_message
handle_apply message now turn_id tell_attempt s =
    if s.silent
    then (s, none)
    else replying (Headlamp.on_receiving_message s.ctx message now) turn_id tell_attempt s

abbrev elapsed : FrontHeadlampSwitchDirection → HeadlampZoneReply → HeadlampActorState → Told
elapsed direction zone_reply s = (
  record s { ctx = zone_reply.ctx; ack_timer = none },
  some (
      DigitalTwinCarVocabulary.zone_spontaneous AssemblyId.headlamp (
        ZoneSpontaneousEvent.headlamp direction FrontHeadlampIncompleteCause.timed_out zone_reply)),
)

unfoldable pub handle_ack_wait_elapsed :
    FrontHeadlampSwitchDirection → Instant → HeadlampActorState → Told
unfolding Headlamp.on_receiving_message
handle_ack_wait_elapsed direction now s =
    if s.knows_brain
    then elapsed direction
        (Headlamp.on_receiving_message s.ctx
          (HeadlampMessage.actuation_incomplete direction FrontHeadlampIncompleteCause.timed_out)
          now)
        s
    else (record s { ack_timer = none }, none)

-- `now` is the clock's reading, which only an elapsed wait takes.
unfoldable pub handle : Instant → HeadlampActorMsg → HeadlampActorState → Told
unfolding handle_apply handle_ack_wait_elapsed
handle now (apply message told_at turn_id tell_attempt) s =
    handle_apply message told_at turn_id tell_attempt s
handle now (ack_wait_elapsed direction) s = handle_ack_wait_elapsed direction now s

pub record WiperActorState : Type 0 where
  pub ctx : WiperContext
  pub silent : Bool

unfoldable pub wiper_handle_apply :
    WiperMessage → ℕ → ℕ → WiperActorState → WiperActorState × Option DigitalTwinCarVocabulary
unfolding Wiper.on_receiving_message
wiper_handle_apply message turn_id tell_attempt s =
    let zone_reply = Wiper.on_receiving_message s.ctx message in
    if s.silent then (s, none) else (
      record s { ctx = zone_reply.ctx },
      some (
          DigitalTwinCarVocabulary.zone_ready AssemblyId.wiper turn_id tell_attempt
            (ZoneReply.wiper zone_reply)),
    )
