-- ===== src/Turn/Quiescence.antt =====
-- The quiescence loop of crates/common/src/twin_runtime/twin_turn.rs against its two-hop meaning.
use sdv_simulation.Prelude.{
  ℕ, zero, suc, ◌≤◌, Bool, true, false, ◌&&◌, List, [], ◌∷◌, none, some, ◌≡◌, refl, ap, ◌∙◌, arith,
  leb, length, if◌then◌else◌, Bool-cases, inl, inr,
}
use sdv_simulation.Physics.{Instant}
use sdv_simulation.Modes.{FsmState, Operational}
use sdv_simulation.Zones.{VehicleContext}
use sdv_simulation.Fsm.Machineries.{FsmEvent}
use sdv_simulation.Fsm.Transition.{transition}
use sdv_simulation.Fsm.{StepResult, step}
use sdv_simulation.Turn.Replies.{ZoneReplies, default}
use sdv_simulation.Turn.{
  HopRecord, is_dark_lamp, detect_internal_after_hop, apply_single_hop, quiesce, run_to_quiescence,
  final_step,
}

abbrev is_driving : FsmState → Bool
is_driving FsmState.driving = true
is_driving _ = false

-- Driving in the dark with a dark lamp that no request is in flight for.
abbrev pub endangered : FsmState → VehicleContext → Bool
endangered s c = is_driving s && leb c.visibility.ambient_lux 840 && is_dark_lamp c.headlamp.state

detect-endangered :
    (s : FsmState) (c : VehicleContext)
    → detect_internal_after_hop s c
      ≡ (if endangered s c then some (FsmEvent.internal Operational.lighting_unsafe) else none)
unfolding detect_internal_after_hop
detect-endangered FsmState.driving c = ground arith
detect-endangered _ c = ground arith

endangered-driving :
    (s : FsmState) (c : VehicleContext) → endangered s c ≡ true → s ≡ FsmState.driving
endangered-driving FsmState.driving c h = refl
endangered-driving _ c h = cc

-- The hop by which the brain tells itself of the danger.
abbrev pub danger_hop : VehicleContext → Instant → HopRecord
danger_hop c now = record {
  event = FsmEvent.internal Operational.lighting_unsafe;
  result = step FsmState.driving c (FsmEvent.internal Operational.lighting_unsafe) now;
}

pub danger_hop-state :
    (c : VehicleContext) (now : Instant)
    → ((danger_hop c now).result.next_state ≡ FsmState.driving_dangerously)
      × ((danger_hop c now).result.modified_ctx ≡ c)
unfolding step transition
danger_hop-state c now = (refl, refl)

quiesce-nil :
    (room : ℕ) (s : FsmState) (c : VehicleContext) (now : Instant) (r : ZoneReplies)
    → quiesce room [] s c now r ≡ []
unfolding quiesce
quiesce-nil zero s c now r = refl
quiesce-nil (suc room) s c now r = refl

module _ (room : ℕ) (e : FsmEvent) (s : FsmState) (c : VehicleContext) (now : Instant)
    (r : ZoneReplies) where
  abbrev hop : HopRecord
  hop = record { event = e; result = apply_single_hop s c e now r }

  abbrev next : FsmState
  next = hop.result.next_state

  abbrev after : VehicleContext
  after = hop.result.modified_ctx

  quiesce_calm : endangered next after ≡ false → quiesce (suc room) (e ∷ []) s c now r ≡ hop ∷ []
  unfolding quiesce
  quiesce_calm h =
      rw (detect-endangered next after, h) (ap (◌∷◌ hop) (quiesce-nil room next after now default))

  quiesce_danger :
      endangered next after ≡ true
      → quiesce (suc room) (e ∷ []) s c now r
        ≡ hop
          ∷ quiesce room (FsmEvent.internal Operational.lighting_unsafe ∷ []) next after now default
  unfolding quiesce
  quiesce_danger h = rw (detect-endangered next after, h)

danger_hop_lem :
    (s : FsmState) (c : VehicleContext) (now : Instant) (r : ZoneReplies)
    → s ≡ FsmState.driving
    → hop 0 (FsmEvent.internal Operational.lighting_unsafe) s c now r ≡ danger_hop c now
unfolding apply_single_hop
danger_hop_lem s c now r h =
    ap
      (λ t. record {
        event = FsmEvent.internal Operational.lighting_unsafe;
        result = step t c (FsmEvent.internal Operational.lighting_unsafe) now;
      })
      h

danger_hop_calms :
    (s : FsmState) (c : VehicleContext) (now : Instant) (r : ZoneReplies)
    → s ≡ FsmState.driving
    → let h = (hop 0 (FsmEvent.internal Operational.lighting_unsafe) s c now r).result in
      endangered h.next_state h.modified_ctx ≡ false
unfolding step transition
danger_hop_calms s c now r h =
    ap (λ (x : HopRecord). endangered x.result.next_state x.result.modified_ctx)
      (danger_hop_lem s c now r h)

module _ (s : FsmState) (c : VehicleContext) (e : FsmEvent) (now : Instant) (r : ZoneReplies) where
  -- What a turn is meant to do: the hop of the event and, if that ends in danger, one more.
  abbrev pub first_hop : HopRecord
  first_hop = record { event = e; result = apply_single_hop s c e now r }

  abbrev pub two_hops : List HopRecord
  two_hops =
      let h = first_hop.result in
      if endangered h.next_state h.modified_ctx
      then first_hop ∷ danger_hop h.modified_ctx now ∷ []
      else first_hop ∷ []

  -- The loop with its queue and its bound of eight hops does just that, whatever the event, the
  -- mode, the context and the replies; the bound never cuts a turn short.
  pub run_to_quiescence-two_hops : run_to_quiescence s c e now r ≡ two_hops
  unfolding run_to_quiescence
  run_to_quiescence-two_hops =
      let n = first_hop.result.next_state in
      let k = first_hop.result.modified_ctx in
      elim (Bool-cases (endangered n k)) [
        | inl danger ↦
            let drives = endangered-driving n k danger in
            rw danger (
              quiesce_danger 7 e s c now r danger
              ∙ ap (◌∷◌ first_hop) (
                  quiesce_calm 6 _ n k now default (danger_hop_calms n k now default drives)
                  ∙ ap (λ x. x ∷ []) (danger_hop_lem n k now default drives)))
        | inr calm ↦ rw calm (quiesce_calm 7 e s c now r calm)
      ]

  -- So what holds of one calm hop, and of one that ends in danger with the hop that answers it,
  -- holds of every turn.
  pub turn_cases {ℓ} :
      (P : List HopRecord → Type ℓ)
      → (let h = first_hop.result in
          endangered h.next_state h.modified_ctx ≡ false → P (first_hop ∷ []))
      → (let h = first_hop.result in
          endangered h.next_state h.modified_ctx ≡ true
          → h.next_state ≡ FsmState.driving
          → P (first_hop ∷ danger_hop h.modified_ctx now ∷ []))
      → P (run_to_quiescence s c e now r)
  turn_cases P one two =
      let n = first_hop.result.next_state in
      let k = first_hop.result.modified_ctx in
      rw run_to_quiescence-two_hops (elim (Bool-cases (endangered n k)) [
        | inl danger ↦ rw danger (two danger (endangered-driving n k danger))
        | inr calm ↦ rw calm (one calm)
      ])

-- Where a turn ends: what its last hop leaves.
pub record Settles (hops : List HopRecord) : Type 0 where
  pub last : StepResult
  pub is_last : final_step hops ≡ some last
  pub short : length hops ≤ 2
  pub calm : endangered last.next_state last.modified_ctx ≡ false

-- Every turn has one or two hops and a last one, and it never leaves the car driving in the dark
-- with a dark lamp and no request in flight: it is Driving no more, or lit, or a lamp request is
-- on its way.
pub run_to_quiescence-Settles :
    (s : FsmState) (c : VehicleContext) (e : FsmEvent) (now : Instant) (r : ZoneReplies)
    → Settles (run_to_quiescence s c e now r)
run_to_quiescence-Settles s c e now r =
    turn_cases s c e now r Settles
      (λ calm. record {
        last = apply_single_hop s c e now r;
        is_last = refl;
        short = omega arith;
        calm = calm;
      })
      (λ danger drives. record {
        last = (danger_hop (apply_single_hop s c e now r).modified_ctx now).result;
        is_last = refl;
        short = omega arith;
        calm = unfold step transition in refl;
      })
