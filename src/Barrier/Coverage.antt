-- ===== src/Barrier/Coverage.antt =====
-- What a complete barrier of crates/common/src/twin_runtime/turn_barrier.rs holds.
use sdv_simulation.Prelude.{
  ℕ, Bool, true, false, not, ◌&&◌, ◌||◌, Bool-cases, List, [], ◌∷◌, is_some, Option-cases, ◌≡◌, ◌⊎◌,
  inl, inr, refl, arith, is_empty,
}
use sdv_simulation.Physics.{Instant}
use sdv_simulation.Modes.{AssemblyId, assembly_eq}
use sdv_simulation.Fsm.Machineries.{FsmEvent}
use sdv_simulation.Twin.{ZoneReply, ZoneMessage}
use sdv_simulation.Barrier.{
  TurnBarrier, TellBackTimer, new, add_pending_zone, act_on_zone_reply, act_on_zone_timeout,
  is_complete, set_insert, set_remove, store_retry_timer,
}
use sdv_simulation.Barrier.Wait.{TellBackWait}

abbrev pub is_in : AssemblyId → List AssemblyId → Bool
is_in a [] = false
is_in a (b ∷ s) = assembly_eq b a || is_in a s

-- Every zone that was told is still pending or has a reply, and every pending zone has a wait and
-- the message to tell it again.
pub record IsCovered (b : TurnBarrier) : Type 0 where
  pub told :
      (a : AssemblyId)
      → is_some (b.zone_messages a) ≡ true
      → (is_in a b.pending ≡ true) ⊎ (is_some (b.zone_replies a) ≡ true)
  pub pending :
      (a : AssemblyId)
      → is_in a b.pending ≡ true
      → (is_some (b.zone_waits a) ≡ true) × (is_some (b.zone_messages a) ≡ true)

is_in-insert :
    (a c : AssemblyId) (s : List AssemblyId)
    → is_in a (set_insert c s) ≡ (assembly_eq c a || is_in a s)
is_in-insert a c [] = refl
is_in-insert AssemblyId.headlamp AssemblyId.headlamp (AssemblyId.headlamp ∷ s) = refl
is_in-insert AssemblyId.wiper AssemblyId.headlamp (AssemblyId.headlamp ∷ s) = refl
is_in-insert AssemblyId.headlamp AssemblyId.headlamp (AssemblyId.wiper ∷ s) = refl
is_in-insert AssemblyId.wiper AssemblyId.headlamp (AssemblyId.wiper ∷ s) = refl
is_in-insert AssemblyId.headlamp AssemblyId.wiper (AssemblyId.headlamp ∷ s) = refl
is_in-insert AssemblyId.wiper AssemblyId.wiper (AssemblyId.headlamp ∷ s) =
    is_in-insert AssemblyId.wiper AssemblyId.wiper s
is_in-insert AssemblyId.headlamp AssemblyId.wiper (AssemblyId.wiper ∷ s) = refl
is_in-insert AssemblyId.wiper AssemblyId.wiper (AssemblyId.wiper ∷ s) = refl

pub is_in-remove :
    (a c : AssemblyId) (s : List AssemblyId)
    → is_in a (set_remove c s) ≡ (not (assembly_eq c a) && is_in a s)
is_in-remove a c [] = ground arith
is_in-remove AssemblyId.headlamp AssemblyId.headlamp (AssemblyId.headlamp ∷ s) =
    is_in-remove AssemblyId.headlamp AssemblyId.headlamp s
is_in-remove AssemblyId.headlamp AssemblyId.wiper (AssemblyId.headlamp ∷ s) = refl
is_in-remove AssemblyId.wiper AssemblyId.headlamp (AssemblyId.headlamp ∷ s) =
    is_in-remove AssemblyId.wiper AssemblyId.headlamp s
is_in-remove AssemblyId.wiper AssemblyId.wiper (AssemblyId.headlamp ∷ s) =
    is_in-remove AssemblyId.wiper AssemblyId.wiper s
is_in-remove AssemblyId.headlamp AssemblyId.headlamp (AssemblyId.wiper ∷ s) =
    is_in-remove AssemblyId.headlamp AssemblyId.headlamp s
is_in-remove AssemblyId.headlamp AssemblyId.wiper (AssemblyId.wiper ∷ s) =
    is_in-remove AssemblyId.headlamp AssemblyId.wiper s
is_in-remove AssemblyId.wiper AssemblyId.headlamp (AssemblyId.wiper ∷ s) = refl
is_in-remove AssemblyId.wiper AssemblyId.wiper (AssemblyId.wiper ∷ s) =
    is_in-remove AssemblyId.wiper AssemblyId.wiper s

new-IsCovered : (t : ℕ) (e : FsmEvent) (now : Instant) → IsCovered (new t e now)
new-IsCovered t e now = record { told = λ a h. cc; pending = λ a h. cc }

add_pending_zone-IsCovered :
    (c : AssemblyId) (m : ZoneMessage) (w : TellBackWait) (t : TellBackTimer) (b : TurnBarrier)
    → IsCovered b
    → IsCovered (add_pending_zone c m w t b)
add_pending_zone-IsCovered c m w t b v = record {
  told = λ a h. elim (Bool-cases (assembly_eq c a)) [
    | inl e ↦ inl (rw (is_in-insert a c b.pending, e) refl)
    | inr e ↦ rw (is_in-insert a c b.pending, e) (v.told a (rw e at h))
  ];
  pending = λ a h. elim (Bool-cases (assembly_eq c a)) [
    | inl e ↦ rw e (refl, refl)
    | inr e ↦ rw e (v.pending a (rw (is_in-insert a c b.pending, e) at h))
  ];
}

act_on_zone_reply-IsCovered :
    (c : AssemblyId) (r : ZoneReply) (b : TurnBarrier)
    → IsCovered b
    → IsCovered (act_on_zone_reply c r b).0
unfolding act_on_zone_reply
act_on_zone_reply-IsCovered c r b v = record {
  told = λ a h. elim (Bool-cases (assembly_eq c a)) [
    | inl e ↦ inr (rw e refl)
    | inr e ↦ rw (is_in-remove a c b.pending, e) (v.told a h)
  ];
  pending = λ a h. elim (Bool-cases (assembly_eq c a)) [
    | inl e ↦ let gone = (rw (is_in-remove a c b.pending, e) at h) in cc
    | inr e ↦ v.pending a (rw (is_in-remove a c b.pending, e) at h)
  ];
}

act_on_zone_timeout-IsCovered :
    (c : AssemblyId) (k : ℕ) (b : TurnBarrier)
    → IsCovered b
    → IsCovered (act_on_zone_timeout c k b).0
unfolding act_on_zone_timeout
act_on_zone_timeout-IsCovered c k b v = elim (Option-cases (b.zone_waits c)) [
  | inl e ↦ rw e (record { told = v.told; pending = v.pending })
  | inr (w, e) ↦ rw e (ground arith)
]

-- The operations that the brain applies to a barrier.
pub data Operation : Type 0 where
  add : AssemblyId → ZoneMessage → TellBackWait → TellBackTimer → Operation
  reply : AssemblyId → ZoneReply → Operation
  timeout : AssemblyId → ℕ → Operation
  rearm : AssemblyId → TellBackTimer → Operation

unfoldable pub apply : Operation → TurnBarrier → TurnBarrier
unfolding act_on_zone_reply act_on_zone_timeout
apply (add c m w t) b = add_pending_zone c m w t b
apply (reply c r) b = (act_on_zone_reply c r b).0
apply (timeout c k) b = (act_on_zone_timeout c k b).0
apply (rearm c t) b = store_retry_timer c t b

unfoldable pub apply_all : List Operation → TurnBarrier → TurnBarrier
unfolding apply
apply_all [] b = b
apply_all (o ∷ os) b = apply_all os (apply o b)

apply-IsCovered : (o : Operation) (b : TurnBarrier) → IsCovered b → IsCovered (apply o b)
unfolding apply
apply-IsCovered (add c m w t) b v = add_pending_zone-IsCovered c m w t b v
apply-IsCovered (reply c r) b v = act_on_zone_reply-IsCovered c r b v
apply-IsCovered (timeout c k) b v = act_on_zone_timeout-IsCovered c k b v
apply-IsCovered (rearm c t) b v = record { told = v.told; pending = v.pending }

apply_all-IsCovered :
    (os : List Operation) (b : TurnBarrier) → IsCovered b → IsCovered (apply_all os b)
unfolding apply_all
apply_all-IsCovered [] b v = v
apply_all-IsCovered (o ∷ os) b v = apply_all-IsCovered os (apply o b) (apply-IsCovered o b v)

is_in-nothing : (s : List AssemblyId) (a : AssemblyId) → is_empty s ≡ true → is_in a s ≡ false
is_in-nothing [] a h = refl
is_in-nothing (c ∷ s) a h = cc

complete-replied :
    (b : TurnBarrier)
    → IsCovered b
    → is_complete b ≡ true
    → (a : AssemblyId) → is_some (b.zone_messages a) ≡ true
    → is_some (b.zone_replies a) ≡ true
complete-replied b v done a h = elim (v.told a h) [
  | inl waits ↦ let never = is_in-nothing b.pending a done in cc
  | inr has ↦ has
]

-- A barrier that is complete, after any sequence of operations on a new one, holds a reply of
-- every zone that it was told to wait for, whatever timeouts and retries came between.
pub complete_has_replies :
    (t : ℕ) (e : FsmEvent) (now : Instant) (os : List Operation)
    → let b = apply_all os (new t e now) in
      is_complete b ≡ true
      → (a : AssemblyId) → is_some (b.zone_messages a) ≡ true
      → is_some (b.zone_replies a) ≡ true
complete_has_replies t e now os done =
    complete-replied _ (apply_all-IsCovered os _ (new-IsCovered t e now)) done
