-- ===== src/Fsm/Countdown.antt =====
-- The startup and shutdown countdowns of crates/common/src/fsm/transition_map.rs, over any
-- sequence of inputs.
use sdv_simulation.Prelude.{
  Bool, true, false, not, ◌||◌, List, [], ◌∷◌, ◌++◌, ◌≡◌, ◌≢◌, refl, sym, ap, ◌∙◌, arith, filter,
  Bool-cases, inl, inr, is_empty, ◌⊎◌, ◌⊎◌,
}
use sdv_simulation.Physics.{Instant}
use sdv_simulation.Modes.{FsmState, AssemblyId, assembly_eq}
use sdv_simulation.Zones.{VehicleContext}
use sdv_simulation.Fsm.Machineries.{FsmEvent}
use sdv_simulation.Fsm.Transition.{transition, without}
use sdv_simulation.Fsm.{step}

pub record Input : Type 0 where
  pub event : FsmEvent
  pub ctx : VehicleContext
  pub now : Instant

-- The mode after a sequence of steps.
unfoldable pub run : FsmState → List Input → FsmState
run s [] = s
run s (i ∷ is) = run (step s i.ctx i.event i.now).next_state is

pub data Phase : Type 0 where
  startup shutdown : Phase

abbrev pub counting : Phase → List AssemblyId → FsmState
counting Phase.startup r = FsmState.preparing_to_start r
counting Phase.shutdown r = FsmState.preparing_to_stop r

abbrev pub target : Phase → FsmState
target Phase.startup = FsmState.idle
target Phase.shutdown = FsmState.off

abbrev is_ack : AssemblyId → FsmEvent → Bool
is_ack a (FsmEvent.assembly_zone_ready b) = assembly_eq a b
is_ack a _ = false

-- Whether the inputs hold an acknowledgement of the assembly.
abbrev pub acked : List Input → AssemblyId → Bool
acked [] a = false
acked (i ∷ is) a = is_ack a i.event || acked is a

-- Those of `r` that the inputs do not acknowledge, whatever the order.
abbrev pub unacked : List AssemblyId → List Input → List AssemblyId
unacked r is = filter (λ a. not (acked is a)) r

unacked-nil : (r : List AssemblyId) → unacked r [] ≡ r
unacked-nil [] = refl
unacked-nil (a ∷ r) = ap (◌∷◌ a) (unacked-nil r)

unacked-without :
    (b : AssemblyId) (r : List AssemblyId) (i : Input) (is : List Input)
    → i.event ≡ FsmEvent.assembly_zone_ready b
    → unacked (without b r) is ≡ unacked r (i ∷ is)
unacked-without b [] i is h = refl
unacked-without b (a ∷ r) i is h = ground (arith, unacked-without b r i is h)

unacked_skip :
    (r : List AssemblyId) (i : Input) (is : List Input)
    → ((a : AssemblyId) → is_ack a i.event ≡ false)
    → unacked r (i ∷ is) ≡ unacked r is
unacked_skip [] i is h = refl
unacked_skip (a ∷ r) i is h = ground (arith, h a, unacked_skip r i is h)

-- An event acknowledges one assembly, or none.
event_cases :
    (e : FsmEvent)
    → ((b : AssemblyId) × (e ≡ FsmEvent.assembly_zone_ready b))
      ⊎ ((a : AssemblyId) → is_ack a e ≡ false)
event_cases (FsmEvent.assembly_zone_ready b) = inl (b, refl)
event_cases _ = inr (λ a. refl)

abbrev next : Phase → List AssemblyId → Input → FsmState
next p r i = (step (counting p r) i.ctx i.event i.now).next_state

module _ (p : Phase) (r : List AssemblyId) (i : Input) where
  module _ (b : AssemblyId) (e : i.event ≡ FsmEvent.assembly_zone_ready b) where
    next_last : is_empty (without b r) ≡ true → next p r i ≡ target p
    unfolding step transition
    next_last h = ground arith

    next_more : is_empty (without b r) ≡ false → next p r i ≡ counting p (without b r)
    unfolding step transition
    next_more h = ground arith

  next_skip : ((a : AssemblyId) → is_ack a i.event ≡ false) → next p r i ≡ counting p r
  unfolding step transition
  next_skip h = ground (arith, h AssemblyId.headlamp, h AssemblyId.wiper)

is_empty_iff : {A : Type 0} (xs : List A) → is_empty xs ≡ true → xs ≡ []
is_empty_iff [] h = refl
is_empty_iff (x ∷ xs) h = cc

not_empty : {A : Type 0} (xs : List A) → is_empty xs ≡ false → xs ≢ []
not_empty [] h k = cc
not_empty (x ∷ xs) h k = cc

-- While some assembly is unacknowledged the mode counts exactly those that are, whatever else
-- arrives and in whatever order: other events change nothing, and a repeated acknowledgement
-- counts once.
countdown_waits :
    (p : Phase) (r : List AssemblyId) (is : List Input)
    → unacked r is ≢ []
    → run (counting p r) is ≡ counting p (unacked r is)
unfolding run
countdown_waits p r [] h = rw (unacked-nil r)
countdown_waits p r (i ∷ is) h = elim (event_cases i.event) [
  | inl (b, e) ↦
      let shift = unacked-without b r i is e in
      elim (Bool-cases (is_empty (without b r))) [
        | inl last ↦ absurd (h (sym shift ∙ ap (λ s. unacked s is) (is_empty_iff _ last)))
        | inr more ↦
            ap (λ s. run s is) (next_more p r i b e more)
            ∙ countdown_waits p (without b r) is (λ z. h (sym shift ∙ z))
            ∙ ap (counting p) shift
      ]
  | inr skip ↦
      let same = unacked_skip r i is skip in
      ap (λ s. run s is) (next_skip p r i skip)
      ∙ countdown_waits p r is (λ z. h (same ∙ z))
      ∙ ap (counting p) (sym same)
]

-- Some prefix of the inputs has led the countdown to the mode that it is for.
abbrev pub Completes : Phase → List AssemblyId → List Input → Type 0
Completes p r is =
    (pre : List Input) × (post : List Input) × (is ≡ pre ++ post)
    × (run (counting p r) pre ≡ target p)

Completes-cons :
    (p : Phase) (r s : List AssemblyId) (i : Input) (is : List Input)
    → next p r i ≡ counting p s
    → Completes p s is
    → Completes p r (i ∷ is)
unfolding run
Completes-cons p r s i is e (pre, post, split, reach) =
    (i ∷ pre, post, ap (◌∷◌ i) split, ap (λ t. run t pre) e ∙ reach)

-- Once every one of a nonempty set of assemblies is acknowledged, some prefix of the inputs has
-- led to the mode that the countdown is for: Idle for the startup, Off for the shutdown.
pub countdown-Completes :
    (p : Phase) (r : List AssemblyId) (is : List Input)
    → r ≢ []
    → unacked r is ≡ []
    → Completes p r is
countdown-Completes p r [] ne h = absurd (ne (sym (unacked-nil r) ∙ h))
countdown-Completes p r (i ∷ is) ne h = elim (event_cases i.event) [
  | inl (b, e) ↦ elim (Bool-cases (is_empty (without b r))) [
    | inl last ↦ (i ∷ [], is, refl, unfold run in next_last p r i b e last)
    | inr more ↦
        Completes-cons p r (without b r) i is (next_more p r i b e more) (
          countdown-Completes p (without b r) is (not_empty _ more)
            (unacked-without b r i is e ∙ h))
  ]
  | inr skip ↦
      Completes-cons p r r i is (next_skip p r i skip)
        (countdown-Completes p r is ne (sym (unacked_skip r i is skip) ∙ h))
]
