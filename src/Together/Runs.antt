-- ===== src/Together/Runs.antt =====
-- Runs of brain and twinlets over sequences of events, against the twin that computes every zone
-- itself: virtual_car_actor.rs, headlamp_actor.rs and wiper_actor.rs of
-- crates/common/src/twin_runtime.
use sdv_simulation.Prelude.{
  true, List, [], ◌∷◌, none, some, ◌≡◌, refl, sym, ap, ◌∙◌, arith, All, inl, inr, Option-cases,
  ◌++◌, append-nil, ap₂,
}
use sdv_simulation.Prelude.Result.{Result-cases, ok, err}
use sdv_simulation.Physics.{Instant}
use sdv_simulation.Modes.{AssemblyId, FsmState}
use sdv_simulation.Zones.{VehicleContext}
use sdv_simulation.Fsm.Machineries.{FsmEvent}
use sdv_simulation.Twin.{ZoneMessage, DigitalTwinCarVocabulary}
use sdv_simulation.Turn.Zone.{zone_message_for_event, user_event_to_zone_tell, zone_turn}
use sdv_simulation.Turn.Replies
use sdv_simulation.Turn.Routine.{is_routine, is_operational}
use sdv_simulation.Brain.{
  Env, Brain, Outcome, Effect, tell, arm, abort, did, behind, and_then, read_clock,
}
use sdv_simulation.Brain.Commit.{commit_resolved_turn}
use sdv_simulation.Brain.Handle.{handle, tick_diag}
use sdv_simulation.Brain.Routine.{commit-CommitIsSmooth}
use sdv_simulation.Brain.Tells.{commit_tells_nothing}
use sdv_simulation.Brain.Success.{IsReachable, commit-HasSucceeded}
use sdv_simulation.Brain.Retell.Runs.{handle_all}
use sdv_simulation.Together.{Twinlets, Agree, deliver_all}
use sdv_simulation.Together.Delivery.{deliver_all-mute}
use sdv_simulation.Together.Exchange.{opened, local_turn, waiting_on, exchange_opens, passes}
use sdv_simulation.Together.Round.{round_is_local}

-- The brain handles the event, the twinlets what it tells them, and the brain what they tell back.
abbrev pub round : Env → FsmEvent → Brain → Twinlets → Outcome × Twinlets
round env e b z =
    let asked = handle env (DigitalTwinCarVocabulary.fsm e) b in
    let (z', replies) = deliver_all asked.effects z in (and_then (handle_all env replies) asked, z')

abbrev with_effects : List Effect → Outcome × Twinlets → Outcome × Twinlets
with_effects es (o, z) = (behind es o, z)

-- The first error stops the actor.
abbrev then_on : (Brain → Twinlets → Outcome × Twinlets) → Outcome × Twinlets → Outcome × Twinlets
then_on f (o, z) = elim o.result [ ok u ↦ with_effects o.effects (f o.brain z) | err x ↦ (o, z) ]

abbrev pub rounds : Env → List FsmEvent → Brain → Twinlets → Outcome × Twinlets
rounds env [] b z = (did [] b, z)
rounds env (e ∷ es) b z = then_on (rounds env es) (round env e b z)

-- The same events with no twinlet: each is committed as the turn that simulates its zone.
abbrev pub local_round : Env → FsmEvent → Brain → Outcome
local_round env e b = commit_resolved_turn env (local_turn env e b) (opened b)

abbrev pub local_rounds : Env → List FsmEvent → Brain → Outcome
local_rounds env [] b = did [] b
local_rounds env (e ∷ es) b = and_then (local_rounds env es) (local_round env e b)

-- What the world sees: all but the tells and their timers.
abbrev pub observed : List Effect → List Effect
observed [] = []
observed (tell m t k now ∷ es) = observed es
observed (arm timer ∷ es) = observed es
observed (abort timer ∷ es) = observed es
observed (e ∷ es) = e ∷ observed es

observed-append : (xs ys : List Effect) → observed (xs ++ ys) ≡ observed xs ++ observed ys
observed-append [] ys = refl
observed-append (tell m t k now ∷ xs) ys = observed-append xs ys
observed-append (arm timer ∷ xs) ys = observed-append xs ys
observed-append (abort timer ∷ xs) ys = observed-append xs ys
observed-append (e ∷ xs) ys = ap (◌∷◌ e) (observed-append xs ys)

routine_is_silent : (env : Env) (e : FsmEvent) → is_routine e ≡ true → tick_diag env e ≡ []
routine_is_silent env FsmEvent.timer_tick h = cc
routine_is_silent env _ h = refl

-- A round against the local one, and that it keeps what the next one needs.
record Refines (local : Outcome) (after : Outcome × Twinlets) : Type 0 where
  same_brain : after.0.brain ≡ local.brain
  same_result : after.0.result ≡ local.result
  same_effects : observed after.0.effects ≡ observed local.effects
  agree : Agree after.0.brain after.1

did_nothing_more : (o : Outcome) → and_then (did []) o ≡ o
did_nothing_more o = elim (Result-cases o.result) [
  | inl (u, e) ↦
      rw e
        (ap (λ es. record { brain = o.brain; effects = es; result = ok u }) (append-nil o.effects))
  | inr (x, e) ↦ rw e refl
]

untold_by_user_event :
    (e : FsmEvent) (s : FsmState)
    → zone_message_for_event e s ≡ none
    → is_operational s ≡ true
    → user_event_to_zone_tell e ≡ none
unfolding zone_message_for_event
untold_by_user_event e (FsmState.preparing_to_start _) untold k = cc
untold_by_user_event e (FsmState.preparing_to_stop _) untold k = cc
untold_by_user_event e _ untold k = untold

-- A routine event without a tell is telemetry, which leaves the zones alone.
untold_keeps_zones :
    (c : VehicleContext) (e : FsmEvent) (s : FsmState) (now : Instant)
    → user_event_to_zone_tell e ≡ none
    → is_routine e ≡ true
    → let c' = (zone_turn c e s now Replies.simulate_locally).ctx in
      (c'.headlamp ≡ c.headlamp) × (c'.wiper ≡ c.wiper)
unfolding user_event_to_zone_tell zone_turn
untold_keeps_zones c (FsmEvent.update_rpm rpm) s now untold h = (refl, refl)
untold_keeps_zones c e s now untold h = ground arith

told_round-Refines :
    (env : Env) (e : FsmEvent) (a : AssemblyId) (m : ZoneMessage) (b : Brain) (z : Twinlets)
    → IsReachable env
    → b.barrier_queue ≡ []
    → zone_message_for_event e b.twin_car.current_state ≡ some (a, m)
    → Agree b z
    → Refines (local_round env e b) (round env e b z)
told_round-Refines env e a m b z reachable idle told v =
    let there = reachable m b.next_turn_id 0 in
    let opens = exchange_opens env e a m b idle told there in
    let (reply, said, closes, agree) =
      (rw opens at (round_is_local env e a m b z idle told there v)) in
    rw (opens, said, did_nothing_more (handle env reply (waiting_on env e a m b)), closes)
      (record {
        same_brain = refl;
        same_result = refl;
        same_effects = refl;
        agree = (rw closes at agree);
      })

untold_round-Refines :
    (env : Env) (e : FsmEvent) (b : Brain) (z : Twinlets)
    → b.barrier_queue ≡ []
    → zone_message_for_event e b.twin_car.current_state ≡ none
    → is_routine e ≡ true
    → is_operational b.twin_car.current_state ≡ true
    → Agree b z
    → Refines (local_round env e b) (round env e b z)
untold_round-Refines env e b z idle untold routine here v =
    let mute = commit_tells_nothing env (local_turn env e b) (opened b) routine here in
    let smooth = commit-CommitIsSmooth env (local_turn env e b) (opened b) routine here in
    let (lamp, wiper) =
      untold_keeps_zones b.twin_car.context e b.twin_car.current_state (read_clock env b)
        (untold_by_user_event e b.twin_car.current_state untold here) routine in
    rw
      (
        passes env e b idle untold (routine_is_silent env e routine),
        deliver_all-mute _ z mute,
        did_nothing_more _,
      )
      (record {
        same_brain = refl;
        same_result = refl;
        same_effects = refl;
        agree = record {
          headlamp_speaks = v.headlamp_speaks;
          wiper_speaks = v.wiper_speaks;
          same_headlamp =
              v.same_headlamp ∙ sym (ap (λ (c : VehicleContext). c.headlamp) smooth.context ∙ lamp);
          same_wiper =
              v.same_wiper ∙ sym (ap (λ (c : VehicleContext). c.wiper) smooth.context ∙ wiper);
        };
      })

round-Refines :
    (env : Env) (e : FsmEvent) (b : Brain) (z : Twinlets)
    → IsReachable env
    → b.barrier_queue ≡ []
    → is_routine e ≡ true
    → is_operational b.twin_car.current_state ≡ true
    → Agree b z
    → Refines (local_round env e b) (round env e b z)
round-Refines env e b z reachable idle routine here v =
    elim (Option-cases (zone_message_for_event e b.twin_car.current_state)) [
      | inl untold ↦ untold_round-Refines env e b z idle untold routine here v
      | inr ((a, m), told) ↦ told_round-Refines env e a m b z reachable idle told v
    ]

then_on-ok :
    (f : Brain → Twinlets → Outcome × Twinlets) (w : Outcome × Twinlets)
    → w.0.result ≡ ok tt
    → then_on f w ≡ with_effects w.0.effects (f w.0.brain w.1)
then_on-ok f w h = rw h refl

pub and_then-ok :
    (f : Brain → Outcome) (o : Outcome)
    → o.result ≡ ok tt
    → and_then f o ≡ behind o.effects (f o.brain)
and_then-ok f o h = rw h refl

-- While every zone is reachable, a brain with an empty queue in an operational mode and twinlets
-- that answer and agree with it go through any sequence of routine events, each with its exchange,
-- as the twin that computes every zone in the brain does: without an error, to the same brain, and
-- with the same ledger records, commands and diagnostics in the same order; and the twinlets end in
-- agreement with it.
pub rounds_refine :
    (env : Env) (es : List FsmEvent) (b : Brain) (z : Twinlets)
    → IsReachable env
    → b.barrier_queue ≡ []
    → is_operational b.twin_car.current_state ≡ true
    → All (λ e. is_routine e ≡ true) es
    → Agree b z
    → let (o, z') = rounds env es b z in
      let local = local_rounds env es b in
      (o.result ≡ ok tt)
      × (o.brain ≡ local.brain)
      × (observed o.effects ≡ observed local.effects)
      × Agree o.brain z'
rounds_refine env [] b z reachable idle here routine v = (refl, refl, refl, v)
rounds_refine env (e ∷ es) b z reachable idle here (routine, more) v =
    let r = round-Refines env e b z reachable idle routine here v in
    let local = local_round env e b in
    let smooth = commit-CommitIsSmooth env (local_turn env e b) (opened b) routine here in
    let success = commit-HasSucceeded env reachable (local_turn env e b) (opened b) in
    let (o, z') = round env e b z in
    let (ends, same, effects, agree) =
      rounds_refine env es o.brain z' reachable
        (ap (λ (x : Brain). x.barrier_queue) r.same_brain ∙ smooth.queue ∙ idle)
        (ap (λ (x : Brain). is_operational x.twin_car.current_state) r.same_brain
          ∙ smooth.operational)
        more r.agree in
    rw
      (
        then_on-ok (rounds env es) (round env e b z) (r.same_result ∙ success),
        and_then-ok (local_rounds env es) local success,
      )
      (
        ends,
        same ∙ ap (λ x. (local_rounds env es x).brain) r.same_brain,
        observed-append o.effects _
            ∙ ap₂ ◌++◌ r.same_effects
                (effects ∙ ap (λ x. observed (local_rounds env es x).effects) r.same_brain)
            ∙ sym (observed-append local.effects _),
        agree,
      )
