-- ===== src/Barrier/Taken.antt =====
-- What a barrier of crates/common/src/twin_runtime/turn_barrier.rs is once a zone's reply is taken.
use sdv_simulation.Prelude.{true, false, none, some, ◌≡◌, ◌≢◌, refl, ◌∙◌}
use sdv_simulation.Modes.{AssemblyId, assembly_eq}
use sdv_simulation.AssemblyMap.{remove}
use sdv_simulation.Twin.{ZoneReply}
use sdv_simulation.Barrier.{TurnBarrier, act_on_zone_reply}
use sdv_simulation.Barrier.Coverage.{is_in, is_in-remove}

-- The reply is the zone's, which is pending no more and has no timer, and the other zones and the
-- turn itself are as before.
pub record HasTaken (a : AssemblyId) (r : ZoneReply) (before after : TurnBarrier) : Type 0 where
  pub reply : after.zone_replies a ≡ some r
  pub settled : is_in a after.pending ≡ false
  pub timer : after.zone_timers a ≡ none
  pub other_replies : (c : AssemblyId) → c ≢ a → after.zone_replies c ≡ before.zone_replies c
  pub other_pending : (c : AssemblyId) → c ≢ a → is_in c after.pending ≡ is_in c before.pending
  pub other_timers : (c : AssemblyId) → c ≢ a → after.zone_timers c ≡ before.zone_timers c
  pub turn_id : after.turn_id ≡ before.turn_id
  pub event : after.event ≡ before.event
  pub now : after.now ≡ before.now

same_assembly : (a : AssemblyId) → assembly_eq a a ≡ true
same_assembly AssemblyId.headlamp = refl
same_assembly AssemblyId.wiper = refl

other_assembly : (a c : AssemblyId) → c ≢ a → assembly_eq a c ≡ false
other_assembly AssemblyId.headlamp AssemblyId.headlamp n = absurd (n refl)
other_assembly AssemblyId.headlamp AssemblyId.wiper n = refl
other_assembly AssemblyId.wiper AssemblyId.headlamp n = refl
other_assembly AssemblyId.wiper AssemblyId.wiper n = absurd (n refl)

pub act_on_zone_reply-HasTaken :
    (a : AssemblyId) (r : ZoneReply) (w : TurnBarrier) → HasTaken a r w (act_on_zone_reply a r w).0
unfolding act_on_zone_reply
act_on_zone_reply-HasTaken a r w = record {
  reply = rw (same_assembly a) refl;
  settled = is_in-remove a a w.pending ∙ rw (same_assembly a) refl;
  timer = rw (same_assembly a) refl;
  other_replies = λ c n. rw (other_assembly a c n) refl;
  other_pending = λ c n. is_in-remove c a w.pending ∙ rw (other_assembly a c n) refl;
  other_timers = λ c n. rw (other_assembly a c n) refl;
  turn_id = refl;
  event = refl;
  now = refl;
}

-- A timer that the zone had does not matter.
pub HasTaken-without_timer :
    (a : AssemblyId) (r : ZoneReply) (w v : TurnBarrier)
    → HasTaken a r (record w { zone_timers = remove a w.zone_timers }) v
    → HasTaken a r w v
HasTaken-without_timer a r w v h = record {
  reply = h.reply;
  settled = h.settled;
  timer = h.timer;
  other_replies = h.other_replies;
  other_pending = h.other_pending;
  other_timers = λ c n. h.other_timers c n ∙ rw (other_assembly a c n) refl;
  turn_id = h.turn_id;
  event = h.event;
  now = h.now;
}
