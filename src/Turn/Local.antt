-- ===== src/Turn/Local.antt =====
-- A turn with a zone's own answer against the turn that simulates the zone in the brain:
-- crates/common/src/twin_runtime/zone_turn.rs and twin_turn.rs.
use sdv_simulation.Prelude.{some, ◌≡◌, refl, arith}
use sdv_simulation.Physics.{Instant}
use sdv_simulation.Modes.{AssemblyId, FsmState}
use sdv_simulation.Zones.{VehicleContext}
use sdv_simulation.Zones.Headlamp.{HeadlampMessage}
use sdv_simulation.Zones.Headlamp
use sdv_simulation.Zones.Wiper.{WiperMessage}
use sdv_simulation.Zones.Wiper
use sdv_simulation.Fsm.Machineries.{FsmEvent}
use sdv_simulation.Twin.{ZoneMessage, ZoneReply}
use sdv_simulation.Turn.Replies.{simulate_locally, with_reply}
use sdv_simulation.Turn.Zone.{
  user_event_to_zone_tell, zone_turn, merge_headlamp_for_message, merge_wiper_for_message,
}
use sdv_simulation.Turn.{apply_external_hop, apply_single_hop, quiesce, run_to_quiescence}

-- What the zone says to a message that it is told at `now`, from the context that the brain has.
unfoldable pub zone_answer : VehicleContext → ZoneMessage → Instant → ZoneReply
zone_answer c (ZoneMessage.headlamp m) now =
    ZoneReply.headlamp (Headlamp.on_receiving_message c.headlamp m now)
zone_answer c (ZoneMessage.wiper m) now = ZoneReply.wiper (Wiper.on_receiving_message c.wiper m)

-- An answer of the zone that the event is for is what the turn would compute for itself.
zone_turn-local :
    (c : VehicleContext) (e : FsmEvent) (s : FsmState) (now : Instant) (a : AssemblyId)
    (m : ZoneMessage)
    → user_event_to_zone_tell e ≡ some (a, m)
    → zone_turn c e s now (with_reply a (zone_answer c m now))
      ≡ zone_turn c e s now simulate_locally
unfolding zone_turn zone_answer user_event_to_zone_tell merge_headlamp_for_message
    merge_wiper_for_message
zone_turn-local c FsmEvent.power_on s now a m told = refl
zone_turn-local c e s now a m told = ground arith

apply_single_hop-local :
    (c : VehicleContext) (e : FsmEvent) (s : FsmState) (now : Instant) (a : AssemblyId)
    (m : ZoneMessage)
    → user_event_to_zone_tell e ≡ some (a, m)
    → apply_single_hop s c e now (with_reply a (zone_answer c m now))
      ≡ apply_single_hop s c e now simulate_locally
unfolding apply_single_hop apply_external_hop
apply_single_hop-local c (FsmEvent.internal o) s now a m told = refl
apply_single_hop-local c e s now a m told = rw (zone_turn-local c e s now a m told) refl

-- The turn with the answer of the zone that the event is for is the turn that simulates the zone.
pub run_to_quiescence-local :
    (c : VehicleContext) (e : FsmEvent) (s : FsmState) (now : Instant) (a : AssemblyId)
    (m : ZoneMessage)
    → user_event_to_zone_tell e ≡ some (a, m)
    → run_to_quiescence s c e now (with_reply a (zone_answer c m now))
      ≡ run_to_quiescence s c e now simulate_locally
unfolding run_to_quiescence quiesce
run_to_quiescence-local c e s now a m told = rw (apply_single_hop-local c e s now a m told) refl
