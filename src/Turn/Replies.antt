-- ===== src/Turn/Replies.antt =====
-- Collected tell-backs: crates/common/src/twin_runtime/zone_replies.rs.
use sdv_simulation.Prelude.{Option}
use sdv_simulation.Modes.{AssemblyId}
use sdv_simulation.AssemblyMap.{AssemblyMap, empty, insert}
use sdv_simulation.Twin.{ZoneReply}

pub record ZoneReplies : Type 0 where
  pub replies : AssemblyMap ZoneReply

abbrev pub default : ZoneReplies
default = record { replies = empty }

abbrev pub simulate_locally : ZoneReplies
simulate_locally = record { replies = empty }

abbrev pub with_reply : AssemblyId → ZoneReply → ZoneReplies
with_reply assembly_id reply = record { replies = insert assembly_id reply empty }

abbrev pub get : AssemblyId → ZoneReplies → Option ZoneReply
get id r = r.replies id
