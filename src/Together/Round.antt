-- ===== src/Together/Round.antt =====
-- One event with its exchange, between the brain and twinlets that agree with it:
-- virtual_car_actor.rs, headlamp_actor.rs and wiper_actor.rs of crates/common/src/twin_runtime.
use sdv_simulation.Prelude.{ℕ, false, true, [], ◌∷◌, some, ◌≡◌, ◌≢◌, refl, arith, sym, ap, ◌∙◌}
use sdv_simulation.Physics.{Instant}
use sdv_simulation.Modes.{AssemblyId, FsmState}
use sdv_simulation.Zones.{VehicleContext}
use sdv_simulation.Zones.Headlamp.{HeadlampMessage}
use sdv_simulation.Zones.Headlamp
use sdv_simulation.Zones.Wiper.{WiperMessage}
use sdv_simulation.Zones.Wiper
use sdv_simulation.Fsm.Machineries.{FsmEvent}
use sdv_simulation.Twin.{ZoneMessage, ZoneReply, DigitalTwinCarVocabulary}
use sdv_simulation.Turn.Replies
use sdv_simulation.Turn.Replies.{ZoneReplies}
use sdv_simulation.Turn.Zone.{
  zone_turn, zone_message_for_event, user_event_to_zone_tell, merge_headlamp_for_message,
  merge_wiper_for_message,
}
use sdv_simulation.Turn.Local.{zone_answer, run_to_quiescence-local}
use sdv_simulation.Barrier.{TellBackTimer}
use sdv_simulation.Brain.{Env, Brain, Outcome, tell, arm, abort, behind, read_clock}
use sdv_simulation.Brain.Commit.{commit_resolved_turn, apply_committed_quiescence}
use sdv_simulation.Brain.Handle.{handle}
use sdv_simulation.Brain.Routine.{commit-CommitIsSmooth}
use sdv_simulation.Turn.Routine.{is_operational, told_is_routine, told_is_operational}
use sdv_simulation.Twinlet.{HeadlampActorState, WiperActorState, handle_apply, wiper_handle_apply}
use sdv_simulation.Together.{Twinlets, Agree, deliver, deliver_all}
use sdv_simulation.Together.Exchange.{
  opened, local_turn, first_timer, waiting_on, answered_turn, exchange_opens, exchange_closes,
  told_by_user_event,
}

answered-local :
    (env : Env) (e : FsmEvent) (a : AssemblyId) (m : ZoneMessage) (b : Brain)
    → user_event_to_zone_tell e ≡ some (a, m)
    → commit_resolved_turn env
        (answered_turn env e a (zone_answer b.twin_car.context m (read_clock env b)) b)
        (opened b)
      ≡ commit_resolved_turn env (local_turn env e b) (opened b)
unfolding commit_resolved_turn
answered-local env e a m b told =
    ap (λ hops. apply_committed_quiescence env hops (opened b))
      (run_to_quiescence-local b.twin_car.context e b.twin_car.current_state (read_clock env b) a m
        told)

-- What the twinlets make of the first tell of a turn, with the timer behind it.
headlamp_delivered :
    (m : HeadlampMessage) (t : ℕ) (now : Instant) (timer : TellBackTimer) (b : Brain) (z : Twinlets)
    → Agree b z
    → let d = deliver_all (tell (ZoneMessage.headlamp m) t 0 now ∷ arm timer ∷ []) z in
      let reply = Headlamp.on_receiving_message b.twin_car.context.headlamp m now in
      (d.1
        ≡ DigitalTwinCarVocabulary.zone_ready AssemblyId.headlamp t 0 (ZoneReply.headlamp reply)
          ∷ [])
      × (d.0.headlamp.silent ≡ false)
      × (d.0.headlamp.ctx ≡ reply.ctx)
      × (d.0.wiper ≡ z.wiper)
unfolding deliver_all deliver handle_apply Headlamp.on_receiving_message
headlamp_delivered m t now timer b z v =
    rw (v.headlamp_speaks, v.same_headlamp) (refl, refl, refl, refl)

wiper_delivered :
    (m : WiperMessage) (t : ℕ) (now : Instant) (timer : TellBackTimer) (b : Brain) (z : Twinlets)
    → Agree b z
    → let d = deliver_all (tell (ZoneMessage.wiper m) t 0 now ∷ arm timer ∷ []) z in
      let reply = Wiper.on_receiving_message b.twin_car.context.wiper m in
      (d.1 ≡ DigitalTwinCarVocabulary.zone_ready AssemblyId.wiper t 0 (ZoneReply.wiper reply) ∷ [])
      × (d.0.wiper.silent ≡ false)
      × (d.0.wiper.ctx ≡ reply.ctx)
      × (d.0.headlamp ≡ z.headlamp)
unfolding deliver_all deliver wiper_handle_apply
wiper_delivered m t now timer b z v = rw (v.wiper_speaks, v.same_wiper) (refl, refl, refl, refl)

-- The zones after a turn that is for the headlamp, or for the wiper.
headlamp_turn :
    (c : VehicleContext) (e : FsmEvent) (s : FsmState) (now : Instant) (m : HeadlampMessage)
    → user_event_to_zone_tell e ≡ some (AssemblyId.headlamp, ZoneMessage.headlamp m)
    → let c' = (zone_turn c e s now Replies.simulate_locally).ctx in
      (c'.headlamp ≡ (Headlamp.on_receiving_message c.headlamp m now).ctx) × (c'.wiper ≡ c.wiper)
unfolding zone_turn user_event_to_zone_tell merge_headlamp_for_message
headlamp_turn c e s now m told = ground arith

wiper_turn :
    (c : VehicleContext) (e : FsmEvent) (s : FsmState) (now : Instant) (m : WiperMessage)
    → user_event_to_zone_tell e ≡ some (AssemblyId.wiper, ZoneMessage.wiper m)
    → let c' = (zone_turn c e s now Replies.simulate_locally).ctx in
      (c'.wiper ≡ (Wiper.on_receiving_message c.wiper m).ctx) × (c'.headlamp ≡ c.headlamp)
unfolding zone_turn user_event_to_zone_tell merge_wiper_for_message
wiper_turn c e s now m told = ground arith

-- No event is for one zone with the other's message.
told_in_kind :
    (e : FsmEvent) (h : HeadlampMessage) (w : WiperMessage)
    → (user_event_to_zone_tell e ≢ some (AssemblyId.wiper, ZoneMessage.headlamp h))
      × (user_event_to_zone_tell e ≢ some (AssemblyId.headlamp, ZoneMessage.wiper w))
unfolding user_event_to_zone_tell
told_in_kind e h w = ground arith

-- The context that the local turn leaves in the brain.
local_context :
    (env : Env) (e : FsmEvent) (a : AssemblyId) (m : ZoneMessage) (b : Brain)
    → user_event_to_zone_tell e ≡ some (a, m)
    → is_operational b.twin_car.current_state ≡ true
    → (commit_resolved_turn env (local_turn env e b) (opened b)).brain.twin_car.context
      ≡ (zone_turn b.twin_car.context e b.twin_car.current_state
          (read_clock env b)
          Replies.simulate_locally).ctx
local_context env e a m b told here =
    (commit-CommitIsSmooth env (local_turn env e b) (opened b) (told_is_routine e a m told)
      here).context

-- The answer commits the local turn.
closes_locally :
    (env : Env) (e : FsmEvent) (a : AssemblyId) (m : ZoneMessage) (b : Brain)
    → b.barrier_queue ≡ []
    → user_event_to_zone_tell e ≡ some (a, m)
    → handle env
        (DigitalTwinCarVocabulary.zone_ready a b.next_turn_id 0
          (zone_answer b.twin_car.context m (read_clock env b)))
        (waiting_on env e a m b)
      ≡ behind
          (abort (first_timer a b) ∷ [])
          (commit_resolved_turn env (local_turn env e b) (opened b))
closes_locally env e a m b idle told =
    exchange_closes env e a m (zone_answer b.twin_car.context m (read_clock env b)) b idle
    ∙ ap (behind (abort (first_timer a b) ∷ [])) (answered-local env e a m b told)

-- What one round comes to: the twinlets tell back one message, which commits the local turn and
-- leaves brain and twinlets in agreement.
abbrev pub IsLocalRound : Env → FsmEvent → AssemblyId → Brain → Twinlets → Type 0
IsLocalRound env e a b z =
    let asked = handle env (DigitalTwinCarVocabulary.fsm e) b in
    let (z', replies) = deliver_all asked.effects z in
    (reply : DigitalTwinCarVocabulary) × (replies ≡ reply ∷ [])
    × (handle env reply asked.brain
        ≡ behind (abort (first_timer a b) ∷ [])
            (commit_resolved_turn env (local_turn env e b) (opened b)))
    × Agree (handle env reply asked.brain).brain z'

Agree-after :
    (env : Env) (e : FsmEvent) (a : AssemblyId) (m : ZoneMessage) (b : Brain) (z : Twinlets)
    → b.barrier_queue ≡ []
    → user_event_to_zone_tell e ≡ some (a, m)
    → is_operational b.twin_car.current_state ≡ true
    → z.headlamp.silent ≡ false
    → z.wiper.silent ≡ false
    → (let c =
          (zone_turn b.twin_car.context e b.twin_car.current_state
            (read_clock env b)
            Replies.simulate_locally).ctx in
        (z.headlamp.ctx ≡ c.headlamp) × (z.wiper.ctx ≡ c.wiper))
    → Agree
        (handle env
          (DigitalTwinCarVocabulary.zone_ready a b.next_turn_id 0
            (zone_answer b.twin_car.context m (read_clock env b)))
          (waiting_on env e a m b)).brain
        z
Agree-after env e a m b z idle told here speaks speaks' (lamp, wiper) =
    let context =
      ap (λ (o : Outcome). o.brain.twin_car.context) (closes_locally env e a m b idle told)
      ∙ local_context env e a m b told here in
    record {
      headlamp_speaks = speaks;
      wiper_speaks = speaks';
      same_headlamp = lamp ∙ ap (λ (c : VehicleContext). c.headlamp) (sym context);
      same_wiper = wiper ∙ ap (λ (c : VehicleContext). c.wiper) (sym context);
    }

round_of_kind :
    (env : Env) (e : FsmEvent) (a : AssemblyId) (m : ZoneMessage) (b : Brain) (z : Twinlets)
    → b.barrier_queue ≡ []
    → user_event_to_zone_tell e ≡ some (a, m)
    → is_operational b.twin_car.current_state ≡ true
    → Agree b z
    → let t = b.next_turn_id in
      let now = read_clock env b in
      let d = deliver_all (tell m t 0 now ∷ arm (first_timer a b) ∷ []) z in
      (d.1 ≡ DigitalTwinCarVocabulary.zone_ready a t 0 (zone_answer b.twin_car.context m now) ∷ [])
      × Agree
          (handle env
            (DigitalTwinCarVocabulary.zone_ready a t 0 (zone_answer b.twin_car.context m now))
            (waiting_on env e a m b)).brain
          d.0
unfolding zone_answer
round_of_kind env e AssemblyId.headlamp (ZoneMessage.headlamp m) b z idle told here v =
    let now = read_clock env b in
    let timer = first_timer AssemblyId.headlamp b in
    let (said, speaks, lamp, other) = headlamp_delivered m b.next_turn_id now timer b z v in
    let (lamp', wiper') = headlamp_turn b.twin_car.context e b.twin_car.current_state now m told in
    (
      said,
      Agree-after env e AssemblyId.headlamp (ZoneMessage.headlamp m) b _ idle told here speaks
          (ap (λ (w : WiperActorState). w.silent) other ∙ v.wiper_speaks)
          (lamp ∙ sym lamp', ap (λ (w : WiperActorState). w.ctx) other ∙ v.same_wiper ∙ sym wiper'),
    )
round_of_kind env e AssemblyId.wiper (ZoneMessage.wiper m) b z idle told here v =
    let now = read_clock env b in
    let timer = first_timer AssemblyId.wiper b in
    let (said, speaks, wiper, other) = wiper_delivered m b.next_turn_id now timer b z v in
    let (wiper', lamp') = wiper_turn b.twin_car.context e b.twin_car.current_state now m told in
    (
      said,
      Agree-after env e AssemblyId.wiper (ZoneMessage.wiper m) b _ idle told here
          (ap (λ (s : HeadlampActorState). s.silent) other ∙ v.headlamp_speaks) speaks
          (
            ap (λ (s : HeadlampActorState). s.ctx) other ∙ v.same_headlamp ∙ sym lamp',
            wiper ∙ sym wiper',
          ),
    )
round_of_kind env e AssemblyId.wiper (ZoneMessage.headlamp m) b z idle told here v =
    absurd ((told_in_kind e m WiperMessage.start).0 told)
round_of_kind env e AssemblyId.headlamp (ZoneMessage.wiper m) b z idle told here v =
    absurd ((told_in_kind e HeadlampMessage.ack_on m).1 told)

-- From an empty queue, and twinlets that answer and agree with the brain, an event for a reachable
-- zone is one tell, one answer and one commit, and all that the commit does to the brain and to the
-- world is what the turn does that computes the zone's answer in the brain: the same mode, context,
-- ledger records and commands. Afterwards the twinlets agree with the brain again.
pub round_is_local :
    (env : Env) (e : FsmEvent) (a : AssemblyId) (m : ZoneMessage) (b : Brain) (z : Twinlets)
    → b.barrier_queue ≡ []
    → zone_message_for_event e b.twin_car.current_state ≡ some (a, m)
    → env.zone_accepts m b.next_turn_id 0 ≡ true
    → Agree b z
    → IsLocalRound env e a b z
round_is_local env e a m b z idle told there v =
    let user = told_by_user_event e b.twin_car.current_state a m told in
    let (said, agree) =
      round_of_kind env e a m b z idle user
        (told_is_operational e b.twin_car.current_state a m told) v in
    rw (exchange_opens env e a m b idle told there)
      (_, said, closes_locally env e a m b idle user, agree)
