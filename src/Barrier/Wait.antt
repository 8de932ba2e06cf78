-- ===== src/Barrier/Wait.antt =====
-- The wait for one tell-back: crates/common/src/twin_runtime/zone_tell_back.rs, with the bounds of
-- crates/common/src/twin_runtime/constants.rs.
use sdv_simulation.Prelude.{ℕ, ◌+◌, ◌-◌, Bool, ◌&&◌, [], ◌∷◌, ◌==◌, ltb, if◌then◌else◌}
use sdv_simulation.Prelude.Word.{u32_max, saturating_add}
use sdv_simulation.Logs.{LogText}
use sdv_simulation.Zones.Headlamp.{HeadlampContext, HeadlampOutcome, HeadlampZoneReply}
use sdv_simulation.Zones.Wiper.{WiperContext, WiperOutcome, WiperZoneReply}

abbrev pub zone_tell_back_max_retries : ℕ
zone_tell_back_max_retries = 2

abbrev pub zone_tell_back_attempt_count : ℕ
zone_tell_back_attempt_count = zone_tell_back_max_retries + 1

pub record TellBackWait : Type 0 where
  pub turn_id : ℕ
  pub tell_attempt : ℕ
  pub retries_remaining : ℕ

abbrev pub new : ℕ → TellBackWait
new turn_id = record {
  turn_id = turn_id;
  tell_attempt = 0;
  retries_remaining = zone_tell_back_max_retries;
}

unfoldable pub matches : ℕ → ℕ → TellBackWait → Bool
matches turn_id tell_attempt w = w.turn_id == turn_id && w.tell_attempt == tell_attempt

-- The next attempt, with one retry less.
abbrev pub advance : TellBackWait → TellBackWait
advance w = record w {
  tell_attempt = saturating_add u32_max w.tell_attempt 1;
  retries_remaining = w.retries_remaining - 1;
}

pub data TellBackTimeoutOutcome : Type 0 where
  retry : TellBackWait → TellBackTimeoutOutcome
  exhausted : HeadlampZoneReply → TellBackTimeoutOutcome

abbrev pub synthetic_unresponsive_headlamp_reply : HeadlampContext → HeadlampZoneReply
synthetic_unresponsive_headlamp_reply ctx = record {
  ctx = ctx;
  outcomes =
      HeadlampOutcome.log_warning (LogText.headlamp_unresponsive zone_tell_back_attempt_count) ∷ [];
}

abbrev pub synthetic_unresponsive_wiper_reply : WiperContext → WiperZoneReply
synthetic_unresponsive_wiper_reply ctx = record {
  ctx = ctx;
  outcomes =
      WiperOutcome.log_warning (LogText.wiper_unresponsive zone_tell_back_attempt_count) ∷ [];
}

unfoldable pub on_tell_back_timeout : HeadlampContext → TellBackWait → TellBackTimeoutOutcome
on_tell_back_timeout headlamp_ctx w =
    if ltb 0 w.retries_remaining
    then retry (advance w)
    else exhausted (synthetic_unresponsive_headlamp_reply headlamp_ctx)
