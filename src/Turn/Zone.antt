-- ===== src/Turn/Zone.antt =====
-- The demux of events to zones: crates/common/src/twin_runtime/zone_turn.rs, and the map from
-- zone outcomes to domain actions of outcome_map.rs.

use sdv_simulation.Prelude.{ℕ, List, [], map, Option, none, some, filter_map, if◌then◌else◌}
use sdv_simulation.Physics.{Instant}
use sdv_simulation.Modes.{AssemblyId, FsmState, state_eq}
use sdv_simulation.Zones.{VehicleContext, apply_lux}
use sdv_simulation.Zones.Powertrain.{PowertrainContext, apply_rpm, refresh_speed, freeze_standstill}
use sdv_simulation.Zones.Headlamp.{HeadlampMessage, HeadlampOutcome, HeadlampZoneReply}
use sdv_simulation.Zones.Headlamp
use sdv_simulation.Zones.Wiper.{WiperMessage, WiperOutcome, WiperZoneReply}
use sdv_simulation.Zones.Wiper
use sdv_simulation.Fsm.Machineries.{FsmEvent, DomainAction}
use sdv_simulation.Twin.{ZoneMessage, as_headlamp, as_wiper}
use sdv_simulation.Turn.Replies.{ZoneReplies, get}

pub data ZoneOutcome : Type 0 where
  headlamp : HeadlampOutcome → ZoneOutcome
  wiper : WiperOutcome → ZoneOutcome

pub record ZoneTurnResult : Type 0 where
  pub ctx : VehicleContext
  pub outcomes : List ZoneOutcome

unfoldable pub user_event_to_zone_tell : FsmEvent → Option (AssemblyId × ZoneMessage)
user_event_to_zone_tell (FsmEvent.update_ambient_lux lux) =
    some (AssemblyId.headlamp, ZoneMessage.headlamp (HeadlampMessage.ambient_lux lux))
user_event_to_zone_tell FsmEvent.front_headlamp_on_ack =
    some (AssemblyId.headlamp, ZoneMessage.headlamp HeadlampMessage.ack_on)
user_event_to_zone_tell FsmEvent.front_headlamp_off_ack =
    some (AssemblyId.headlamp, ZoneMessage.headlamp HeadlampMessage.ack_off)
user_event_to_zone_tell (FsmEvent.front_headlamp_actuation_incomplete direction cause) = some (
  AssemblyId.headlamp,
  ZoneMessage.headlamp (HeadlampMessage.actuation_incomplete direction cause),
)
user_event_to_zone_tell FsmEvent.rains_started =
    some (AssemblyId.wiper, ZoneMessage.wiper WiperMessage.start)
user_event_to_zone_tell FsmEvent.rains_stopped =
    some (AssemblyId.wiper, ZoneMessage.wiper WiperMessage.stop)
user_event_to_zone_tell _ = none

unfoldable pub zone_message_for_event : FsmEvent → FsmState → Option (AssemblyId × ZoneMessage)
unfolding user_event_to_zone_tell
zone_message_for_event e (FsmState.preparing_to_start _) = none
zone_message_for_event e (FsmState.preparing_to_stop _) = none
zone_message_for_event e _ = user_event_to_zone_tell e

unfoldable pub merge_headlamp_for_message :
    VehicleContext → HeadlampMessage → Instant → Option HeadlampZoneReply → HeadlampZoneReply
merge_headlamp_for_message ctx message now (some tell_back) = tell_back
merge_headlamp_for_message ctx message now none =
    Headlamp.on_receiving_message ctx.headlamp message now

unfoldable pub merge_wiper_for_message :
    VehicleContext → WiperMessage → Option WiperZoneReply → WiperZoneReply
merge_wiper_for_message ctx message (some tell_back) = tell_back
merge_wiper_for_message ctx message none = Wiper.on_receiving_message ctx.wiper message

-- `next.headlamp = reply.ctx` and the outcomes, and the same for the wiper.
abbrev embed_headlamp : VehicleContext → HeadlampZoneReply → ZoneTurnResult
embed_headlamp next reply = record {
  ctx = record next { headlamp = reply.ctx };
  outcomes = map ZoneOutcome.headlamp reply.outcomes;
}

abbrev embed_wiper : VehicleContext → WiperZoneReply → ZoneTurnResult
embed_wiper next reply = record {
  ctx = record next { wiper = reply.ctx };
  outcomes = map ZoneOutcome.wiper reply.outcomes;
}

abbrev pub untouched : VehicleContext → ZoneTurnResult
untouched ctx = record { ctx = ctx; outcomes = [] }

abbrev pub headlamp_ingress : ZoneReplies → Option HeadlampZoneReply
headlamp_ingress r = elim (get AssemblyId.headlamp r) [ none ↦ none | some z ↦ as_headlamp z ]

abbrev pub wiper_ingress : ZoneReplies → Option WiperZoneReply
wiper_ingress r = elim (get AssemblyId.wiper r) [ none ↦ none | some z ↦ as_wiper z ]

unfoldable pub apply_telemetry_rpm : ℕ → FsmState → PowertrainContext → PowertrainContext
apply_telemetry_rpm rpm current_state p =
    let moved = refresh_speed (apply_rpm rpm p) in
    if state_eq current_state FsmState.off then freeze_standstill moved else moved

unfoldable pub zone_turn :
    VehicleContext → FsmEvent → FsmState → Instant → ZoneReplies → ZoneTurnResult
unfolding apply_telemetry_rpm merge_headlamp_for_message merge_wiper_for_message
zone_turn ctx (FsmEvent.update_rpm rpm) s now r =
    untouched (record ctx { powertrain = apply_telemetry_rpm rpm s ctx.powertrain })
zone_turn ctx (FsmEvent.update_ambient_lux lux) s now r =
    embed_headlamp (record ctx { visibility = apply_lux lux ctx.visibility })
      (merge_headlamp_for_message ctx (HeadlampMessage.ambient_lux lux) now (headlamp_ingress r))
zone_turn ctx FsmEvent.front_headlamp_on_ack s now r =
    embed_headlamp ctx
      (merge_headlamp_for_message ctx HeadlampMessage.ack_on now (headlamp_ingress r))
zone_turn ctx FsmEvent.front_headlamp_off_ack s now r =
    embed_headlamp ctx
      (merge_headlamp_for_message ctx HeadlampMessage.ack_off now (headlamp_ingress r))
zone_turn ctx (FsmEvent.front_headlamp_actuation_incomplete direction cause) s now r =
    embed_headlamp ctx (
      merge_headlamp_for_message ctx (HeadlampMessage.actuation_incomplete direction cause) now
        (headlamp_ingress r))
zone_turn ctx FsmEvent.timer_tick s now r =
    embed_headlamp ctx
      (merge_headlamp_for_message ctx HeadlampMessage.timer_tick now (headlamp_ingress r))
zone_turn ctx FsmEvent.rains_started s now r =
    embed_wiper ctx (merge_wiper_for_message ctx WiperMessage.start (wiper_ingress r))
zone_turn ctx FsmEvent.rains_stopped s now r =
    embed_wiper ctx (merge_wiper_for_message ctx WiperMessage.stop (wiper_ingress r))
zone_turn ctx (FsmEvent.assembly_zone_ready AssemblyId.headlamp) s now r =
    elim (headlamp_ingress r) [ none ↦ untouched ctx | some reply ↦ embed_headlamp ctx reply ]
zone_turn ctx (FsmEvent.assembly_zone_ready AssemblyId.wiper) s now r = elim (wiper_ingress r) [
  | none ↦ untouched ctx
  | some reply ↦ embed_wiper ctx reply
]
zone_turn ctx _ s now r = untouched ctx

abbrev pub headlamp_outcome_to_domain_action : HeadlampOutcome → DomainAction
headlamp_outcome_to_domain_action HeadlampOutcome.request_on =
    DomainAction.request_front_headlamp_on
headlamp_outcome_to_domain_action HeadlampOutcome.request_off =
    DomainAction.request_front_headlamp_off
headlamp_outcome_to_domain_action (HeadlampOutcome.log_warning msg) = DomainAction.log_warning msg

abbrev pub wiper_outcome_to_domain_action : WiperOutcome → DomainAction
wiper_outcome_to_domain_action WiperOutcome.start_wiping = DomainAction.request_wiper_start
wiper_outcome_to_domain_action WiperOutcome.stop_wiping = DomainAction.request_wiper_stop
wiper_outcome_to_domain_action (WiperOutcome.log_warning msg) = DomainAction.log_warning msg

-- Each of the two functions above returns `Some` on every outcome.
abbrev pub zone_outcome_to_domain_action : ZoneOutcome → Option DomainAction
zone_outcome_to_domain_action (ZoneOutcome.headlamp o) = some (headlamp_outcome_to_domain_action o)
zone_outcome_to_domain_action (ZoneOutcome.wiper o) = some (wiper_outcome_to_domain_action o)

abbrev pub zone_outcomes_to_domain_actions : List ZoneOutcome → List DomainAction
zone_outcomes_to_domain_actions = filter_map zone_outcome_to_domain_action
