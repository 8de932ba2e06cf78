-- ===== src/Logs.antt =====
-- Log texts: crates/common/src/front_headlamp_log.rs and the format strings of the core.
-- A text made by `format!` is kept as the template's constructor with its arguments, because the
-- printed form of an `Instant` belongs to the standard library.
use sdv_simulation.Prelude.{ℕ, String}
use sdv_simulation.Modes.{FsmState}

pub data FrontHeadlampSwitchDirection : Type 0 where
  on off : FrontHeadlampSwitchDirection

pub data FrontHeadlampIncompleteCause : Type 0 where
  timed_out negative_ack : FrontHeadlampIncompleteCause

-- The emoji pairs, by the names of their constants.
pub data Icon : Type 0 where
  ack_on ack_off nack_on nack_off timeout_on timeout_off : Icon

pub data LogText : Type 0 where
  literal : String → LogText
  -- "{icon} {msg}"
  icon_line : Icon → String → LogText
  -- "[REJECTED]: PowerOff is invalid while in state {:?}"
  rejected_power_off : FsmState → LogText
  -- "headlamp tell-back unresponsive after {} tell attempts", and the same for the wiper
  headlamp_unresponsive : ℕ → LogText
  wiper_unresponsive : ℕ → LogText

abbrev pub msg_nack_on : String
msg_nack_on = "Front headlamp ON rejected (NACK)."

abbrev pub msg_nack_off : String
msg_nack_off = "Front headlamp OFF rejected (NACK)."

abbrev pub msg_timeout_on : String
msg_timeout_on = "Front headlamp ON request — no actuator response (timed out)."

abbrev pub msg_timeout_off : String
msg_timeout_off = "Front headlamp OFF request — no actuator response (timed out)."

unfoldable pub alert_incomplete :
    FrontHeadlampSwitchDirection → FrontHeadlampIncompleteCause → LogText
alert_incomplete FrontHeadlampSwitchDirection.on FrontHeadlampIncompleteCause.timed_out =
    icon_line Icon.timeout_on msg_timeout_on
alert_incomplete FrontHeadlampSwitchDirection.off FrontHeadlampIncompleteCause.timed_out =
    icon_line Icon.timeout_off msg_timeout_off
alert_incomplete FrontHeadlampSwitchDirection.on FrontHeadlampIncompleteCause.negative_ack =
    icon_line Icon.nack_on msg_nack_on
alert_incomplete FrontHeadlampSwitchDirection.off FrontHeadlampIncompleteCause.negative_ack =
    icon_line Icon.nack_off msg_nack_off
