-- ===== src/Together/Lost.antt =====
-- What a late answer costs: virtual_car_actor.rs and headlamp_actor.rs of
-- crates/common/src/twin_runtime, zone_turn.rs and the headlamp zone.
use sdv_simulation.Prelude.{
  ℕ, true, false, List, [], ◌∷◌, some, ◌≡◌, refl, sym, ap, ◌∙◌, arith, map, ◌++◌,
}
use sdv_simulation.Physics.{Instant}
use sdv_simulation.Modes.{AssemblyId, FsmState}
use sdv_simulation.Zones.{VehicleContext}
use sdv_simulation.Zones.Headlamp.{
  HeadlampMessage, HeadlampContext, HeadlampZoneReply, on_receiving_message, apply_in_place,
  evaluate_lux, recover_incomplete, on_timer_tick, tick_pending,
}
use sdv_simulation.Fsm.Machineries.{FsmEvent}
use sdv_simulation.Fsm.{step}
use sdv_simulation.Fsm.Transition.{transition, output}
use sdv_simulation.Twin.{ZoneMessage, ZoneReply, DigitalTwinCarVocabulary}
use sdv_simulation.Turn.Replies.{with_reply, ZoneReplies}
use sdv_simulation.Turn.Zone.{
  ZoneOutcome, zone_turn, zone_message_for_event, user_event_to_zone_tell,
  merge_headlamp_for_message,
}
use sdv_simulation.Turn.{apply_single_hop, apply_external_hop, run_to_quiescence, merged_actions}
use sdv_simulation.Turn.Quiescence.{turn_cases, danger_hop}
use sdv_simulation.Turn.Routine.{is_routine, told_is_routine, told_is_operational}
use sdv_simulation.Barrier.{TellBackTimer}
use sdv_simulation.Brain.{Env, Brain, Outcome, tell, arm, did, read_clock}
use sdv_simulation.Brain.Handle.{handle}
use sdv_simulation.Brain.Lacks.{any}
use sdv_simulation.Brain.Routine.{commit-CommitIsSmooth}
use sdv_simulation.Brain.Success.{IsReachable}
use sdv_simulation.Brain.Tells.{
  is_command, has_request, has_request-append, commit_commands_nothing,
}
use sdv_simulation.Twinlet.{handle_apply}
use sdv_simulation.Together.{Twinlets, Agree, deliver, deliver_all}
use sdv_simulation.Together.Exchange.{
  opened, answered_turn, first_timer, exchange_opens, told_by_user_event,
}
use sdv_simulation.Together.Retry.{
  second_timer, waiting_again, timeout_retells, first_answer_ignored, second_answer_commits,
}

-- The second time, no message of the headlamp asks for anything or changes the lamp.
again_says_nothing :
    (c : HeadlampContext) (m : HeadlampMessage) (now : Instant)
    → let first = on_receiving_message c m now in
      (on_receiving_message first.ctx m now).outcomes ≡ []
unfolding on_receiving_message apply_in_place evaluate_lux recover_incomplete on_timer_tick
    tick_pending
again_says_nothing c HeadlampMessage.become_on now = refl
again_says_nothing c m now = ground arith

again_stays :
    (c : HeadlampContext) (m : HeadlampMessage) (now : Instant)
    → let first = on_receiving_message c m now in
      (on_receiving_message first.ctx m now).ctx ≡ first.ctx
unfolding on_receiving_message apply_in_place evaluate_lux recover_incomplete on_timer_tick
    tick_pending
again_stays c HeadlampMessage.become_on now = refl
again_stays c m now = ground arith

step_asks_nothing :
    (s : FsmState) (c : VehicleContext) (e : FsmEvent) (now : Instant)
    → has_request (step s c e now).actions ≡ false
unfolding step transition output
step_asks_nothing FsmState.off c e now = ground arith
step_asks_nothing _ c e now = ground arith

-- The zone part of a turn that is for the headlamp asks for what the answer asks for.
told_outcomes :
    (c : VehicleContext) (e : FsmEvent) (s : FsmState) (now : Instant) (m : HeadlampMessage)
    (reply : HeadlampZoneReply)
    → user_event_to_zone_tell e ≡ some (AssemblyId.headlamp, ZoneMessage.headlamp m)
    → let r = with_reply AssemblyId.headlamp (ZoneReply.headlamp reply) in
      ((zone_turn c e s now r).outcomes ≡ map ZoneOutcome.headlamp reply.outcomes)
      × ((zone_turn c e s now r).ctx.headlamp ≡ reply.ctx)
unfolding zone_turn user_event_to_zone_tell merge_headlamp_for_message
told_outcomes c e s now m reply told = ground arith

hop_asks_nothing :
    (s : FsmState) (c : VehicleContext) (e : FsmEvent) (now : Instant) (r : ZoneReplies)
    → is_routine e ≡ true
    → (zone_turn c e s now r).outcomes ≡ []
    → has_request (apply_single_hop s c e now r).actions ≡ false
unfolding apply_single_hop apply_external_hop
hop_asks_nothing s c (FsmEvent.internal o) now r h none_said = cc
hop_asks_nothing s c e now r h none_said =
    rw none_said (step_asks_nothing s (zone_turn c e s now r).ctx e now)

turn_asks_nothing :
    (s : FsmState) (c : VehicleContext) (e : FsmEvent) (now : Instant) (r : ZoneReplies)
    → is_routine e ≡ true
    → (zone_turn c e s now r).outcomes ≡ []
    → has_request (merged_actions (run_to_quiescence s c e now r)) ≡ false
turn_asks_nothing s c e now r h none_said =
    let first = hop_asks_nothing s c e now r h none_said in
    let k = (apply_single_hop s c e now r).modified_ctx in
    turn_cases s c e now r (λ hops. has_request (merged_actions hops) ≡ false)
      (λ calm. has_request-append (apply_single_hop s c e now r).actions [] first)
      (λ danger drives.
        has_request-append (apply_single_hop s c e now r).actions
          (merged_actions (danger_hop k now ∷ [])) first
        ∙ has_request-append (danger_hop k now).result.actions []
            (step_asks_nothing FsmState.driving k _ now))

-- What the twinlet makes of one tell, with the timer behind it.
lamp_delivered :
    (m : HeadlampMessage) (t k : ℕ) (now : Instant) (timer : TellBackTimer) (z : Twinlets)
    → z.headlamp.silent ≡ false
    → let d = deliver_all (tell (ZoneMessage.headlamp m) t k now ∷ arm timer ∷ []) z in
      let reply = on_receiving_message z.headlamp.ctx m now in
      (d.1
        ≡ DigitalTwinCarVocabulary.zone_ready AssemblyId.headlamp t k (ZoneReply.headlamp reply)
          ∷ [])
      × (d.0.headlamp.silent ≡ false)
      × (d.0.headlamp.ctx ≡ reply.ctx)
unfolding deliver_all deliver handle_apply on_receiving_message
lamp_delivered m t k now timer z speaks = rw speaks (refl, refl, refl)

-- The turn that an answer without outcomes commits: no command, and the answer's context.
empty_answer_commits :
    (env : Env) (e : FsmEvent) (m : HeadlampMessage) (reply : HeadlampZoneReply) (b : Brain)
    → b.barrier_queue ≡ []
    → zone_message_for_event e b.twin_car.current_state
      ≡ some (AssemblyId.headlamp, ZoneMessage.headlamp m)
    → reply.outcomes ≡ []
    → let done =
        handle env
          (DigitalTwinCarVocabulary.zone_ready AssemblyId.headlamp b.next_turn_id 1
            (ZoneReply.headlamp reply))
          (waiting_again env e AssemblyId.headlamp (ZoneMessage.headlamp m) b) in
      (any is_command done.effects ≡ false) × (done.brain.twin_car.context.headlamp ≡ reply.ctx)
empty_answer_commits env e m reply b idle told none_said =
    let s = b.twin_car.current_state in
    let a = AssemblyId.headlamp in
    let z = ZoneReply.headlamp reply in
    let turn = answered_turn env e a z b in
    let user = told_by_user_event e s a (ZoneMessage.headlamp m) told in
    let routine = told_is_routine e a (ZoneMessage.headlamp m) user in
    let here = told_is_operational e s a (ZoneMessage.headlamp m) told in
    let closes = second_answer_commits env e a (ZoneMessage.headlamp m) z b idle in
    let (said, left) = told_outcomes b.twin_car.context e s (read_clock env b) m reply user in
    let quiet = said ∙ ap (map ZoneOutcome.headlamp) none_said in
    let asks =
      turn_asks_nothing s b.twin_car.context e (read_clock env b) (with_reply a z) routine quiet in
    let smooth = commit-CommitIsSmooth env turn (opened b) routine here in
    (
      ap (λ (o : Outcome). any is_command o.effects) closes
          ∙ commit_commands_nothing env turn (opened b) routine here asks,
      ap (λ (o : Outcome). o.brain.twin_car.context.headlamp) closes
          ∙ ap (λ (c : VehicleContext). c.headlamp) smooth.context
          ∙ left,
    )

module _ (env : Env) (e : FsmEvent) (m : HeadlampMessage) (b : Brain) (z : Twinlets) where
  abbrev asked : Outcome
  asked = handle env (DigitalTwinCarVocabulary.fsm e) b

  abbrev late : Outcome
  late =
      handle env
        (DigitalTwinCarVocabulary.zone_tell_back_timeout AssemblyId.headlamp b.next_turn_id 0)
        asked.brain

  abbrev told_once : Twinlets × List DigitalTwinCarVocabulary
  told_once = deliver_all asked.effects z

  abbrev told_twice : Twinlets × List DigitalTwinCarVocabulary
  told_twice = deliver_all late.effects told_once.0

  -- The headlamp is told of an event, and answers only after the tell-back timeout has told it
  -- again. The first answer is ignored and the second commits the turn; but the lamp has taken the
  -- message already, so the second answer asks for nothing: brain and twinlet agree on the state
  -- that a prompt answer would have left, a request in flight included, and no command is sent.
  pub late_answer_loses_command :
      IsReachable env
      → b.barrier_queue ≡ []
      → zone_message_for_event e b.twin_car.current_state
        ≡ some (AssemblyId.headlamp, ZoneMessage.headlamp m)
      → Agree b z
      → (first : DigitalTwinCarVocabulary) × (second : DigitalTwinCarVocabulary) × (told_once.1
          ≡ first ∷ [])
        × (told_twice.1 ≡ second ∷ [])
        × (handle env first late.brain ≡ did [] late.brain)
        × (any is_command (asked.effects ++ late.effects ++ (handle env second late.brain).effects)
            ≡ false)
        × (told_twice.0.headlamp.ctx
            ≡ (on_receiving_message b.twin_car.context.headlamp m (read_clock env b)).ctx)
        × ((handle env second late.brain).brain.twin_car.context.headlamp
            ≡ told_twice.0.headlamp.ctx)
  late_answer_loses_command reachable idle told v =
      let t = b.next_turn_id in
      let now = read_clock env b in
      let a = AssemblyId.headlamp in
      let lamp = ZoneMessage.headlamp m in
      let hears = λ (c : HeadlampContext). on_receiving_message c m now in
      let (said, speaks, took) = lamp_delivered m t 0 now (first_timer a b) z v.headlamp_speaks in
      let z1 = (deliver_all (tell lamp t 0 now ∷ arm (first_timer a b) ∷ []) z).0 in
      let (said', speaks', took') = lamp_delivered m t 1 now (second_timer a b) z1 speaks in
      let reply = hears z1.headlamp.ctx in
      let quiet = ap (λ c. (hears c).outcomes) took ∙ again_says_nothing z.headlamp.ctx m now in
      let (free, left) = empty_answer_commits env e m reply b idle told quiet in
      rw
        (
          exchange_opens env e a lamp b idle told (reachable lamp t 0),
          timeout_retells env e a lamp b (reachable lamp t 1),
        )
        (
          _,
          _,
          said,
          said',
          first_answer_ignored env e a lamp _ b,
          free,
          took'
              ∙ ap (λ c. (hears c).ctx) took
              ∙ again_stays z.headlamp.ctx m now
              ∙ ap (λ c. (hears c).ctx) v.same_headlamp,
          left ∙ sym took',
        )
