-- ===== src/Zones/Wiper.antt =====
-- The wiper zone: crates/common/src/vehicle_state/wiper.rs. `&mut self` is a returned context.
pub mod Motor
use sdv_simulation.Prelude.{List, [], ◌∷◌}
use sdv_simulation.Logs.{LogText}

pub data WiperState : Type 0 where
  off ready running : WiperState

pub data WiperMessage : Type 0 where
  become_on become_off start stop : WiperMessage

pub data WiperOutcome : Type 0 where
  start_wiping stop_wiping : WiperOutcome
  log_warning : LogText → WiperOutcome

pub record WiperContext : Type 0 where
  pub state : WiperState

pub record WiperZoneReply : Type 0 where
  pub ctx : WiperContext
  pub outcomes : List WiperOutcome

abbrev pub default : WiperContext
default = record { state = WiperState.off }

-- The match of `apply_in_place` on the message and, under it, on the state.
unfoldable pub apply_in_place :
    WiperMessage → WiperState → WiperContext → WiperContext × List WiperOutcome
apply_in_place WiperMessage.become_on WiperState.off c = (record c { state = WiperState.ready }, [])
apply_in_place WiperMessage.become_on _ c = (c, [])
apply_in_place WiperMessage.become_off _ c = (record c { state = WiperState.off }, [])
apply_in_place WiperMessage.start WiperState.ready c =
    (record c { state = WiperState.running }, WiperOutcome.start_wiping ∷ [])
apply_in_place WiperMessage.start _ c = (c, [])
apply_in_place WiperMessage.stop WiperState.running c =
    (record c { state = WiperState.ready }, WiperOutcome.stop_wiping ∷ [])
apply_in_place WiperMessage.stop _ c = (c, [])

unfoldable pub on_receiving_message : WiperContext → WiperMessage → WiperZoneReply
unfolding apply_in_place
on_receiving_message self msg =
    let (next, outcomes) = apply_in_place msg self.state self in
    record { ctx = next; outcomes = outcomes }
