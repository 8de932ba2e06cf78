-- ===== src/Together/Switching/Early.antt =====
-- A reading of the light that arrives while the assemblies start: virtual_car_actor.rs of
-- crates/common/src/twin_runtime/controller, with the rules of crates/common/src/twin_runtime/zone_turn.rs.
use sdv_simulation.Prelude.{ℕ, true, false, [], ◌∷◌, ◌≡◌, refl, sym, ap, ◌∙◌, subst, leb}
use sdv_simulation.Prelude.Result.{ok}
use sdv_simulation.Physics.{Instant, lux_on_threshold}
use sdv_simulation.Modes.{AssemblyId, FsmState}
use sdv_simulation.Zones.{VehicleContext}
use sdv_simulation.Zones.Headlamp.{HeadlampState}
use sdv_simulation.Zones.Headlamp
use sdv_simulation.Zones.Wiper.{WiperZoneReply}
use sdv_simulation.Fsm.{step, StepResult}
use sdv_simulation.Fsm.Machineries.{FsmEvent, DomainAction}
use sdv_simulation.Fsm.Transition.{transition, output}
use sdv_simulation.Twin.{ZoneReply, DigitalTwinCarVocabulary}
use sdv_simulation.Turn.{ResolvedTurn, apply_single_hop, apply_external_hop}
use sdv_simulation.Turn.Zone.{zone_turn, merge_headlamp_for_message}
use sdv_simulation.Turn.Replies
use sdv_simulation.Turn.Routine.{has_lifecycle}
use sdv_simulation.Brain.{Env, Brain, Outcome}
use sdv_simulation.Brain.Commit.{commit_resolved_turn}
use sdv_simulation.Barrier.{TellBackTimer}
use sdv_simulation.Barrier.Entry.{BarrierEntry, PassthroughBarrier, waiting, passthrough}
use sdv_simulation.Barrier.Entry
use sdv_simulation.Brain.{abort, behind, and_then, tell_back_timer}
use sdv_simulation.Brain.Handle.{drain, handle}
use sdv_simulation.Brain.Drain.{popped, drain-step}
use sdv_simulation.Brain.Success.{IsReachable}
use sdv_simulation.Together.Head.{asking, answered_by, answers_head}
use sdv_simulation.Together.Exchange.{drain-zero}
use sdv_simulation.Together.Switching.{lifecycle_tell, preparing, wiper_hop}
use sdv_simulation.Together.Switching.Asked.{calm_reached}
use sdv_simulation.Turn.Quiescence.{endangered}
use sdv_simulation.Brain.Landing.{commit-Lands, IsSingle, hop_of}
use sdv_simulation.Brain.Lacks.{any-append, IsFree}
use sdv_simulation.Brain.Tells.{is_tell}

-- What the hop of a dark reading does in the idle car whose lamp is on call.
record IsRequest (ctx : VehicleContext) (h : StepResult) : Type 0 where
  mode : h.next_state ≡ FsmState.idle
  lamp : h.modified_ctx.headlamp.state ≡ HeadlampState.on_requested
  actions : h.actions ≡ DomainAction.request_front_headlamp_on ∷ []

reading_hop :
    (s : FsmState) (c : VehicleContext) (now : Instant) (lux : ℕ)
    → s ≡ FsmState.idle
    → c.headlamp.state ≡ HeadlampState.ready
    → leb lux lux_on_threshold ≡ true
    → IsRequest c (apply_single_hop s c (FsmEvent.update_ambient_lux lux) now Replies.default)
unfolding apply_single_hop apply_external_hop zone_turn step transition output
    merge_headlamp_for_message Headlamp.on_receiving_message Headlamp.apply_in_place
    Headlamp.evaluate_lux
reading_hop s c now lux here lamp dark =
    rw (here, lamp, dark) (record { mode = refl; lamp = refl; actions = refl })

-- Behind a commit that succeeds, the drain loop commits the one complete entry that waits.
two_commits :
    (env : Env) (timer : TellBackTimer) (entry : BarrierEntry) (o : Outcome)
    → o.result ≡ ok tt
    → o.brain.barrier_queue ≡ entry ∷ []
    → Entry.is_complete entry ≡ true
    → behind (abort timer ∷ []) (and_then (drain 1 env) o)
      ≡ behind (abort timer ∷ o.effects) (
          commit_resolved_turn env
            (Entry.into_resolved_turn entry)
            (record o.brain { barrier_queue = [] }))
unfolding popped
two_commits env timer entry o success waits complete =
    rw
      (
        success,
        drain-step 0 env o.brain entry [] waits complete,
        drain-zero env (popped env entry [] o.brain),
      )
      refl

-- A reading that waits in the reorder buffer.
abbrev pub reading : ℕ → ℕ → Instant → BarrierEntry
reading lux t now =
    passthrough (record { turn_id = t; event = FsmEvent.update_ambient_lux lux; now = now })

-- The car is idle, the brain holds the lamp's request for in flight, and no zone has been told.
pub record IsUntold (o : Outcome) : Type 0 where
  pub success : o.result ≡ ok tt
  pub mode : o.brain.twin_car.current_state ≡ FsmState.idle
  pub lamp : o.brain.twin_car.context.headlamp.state ≡ HeadlampState.on_requested
  pub mute : IsFree is_tell o

module _ (env : Env) (b : Brain) (t t' : ℕ) (now now' : Instant) (lux : ℕ)
    (reply : WiperZoneReply) where
  abbrev rest : Brain
  rest = record b { barrier_queue = reading lux t' now' ∷ [] }

  abbrev last_turn : ResolvedTurn
  last_turn =
      answered_by (FsmEvent.assembly_zone_ready AssemblyId.wiper) now AssemblyId.wiper
        (ZoneReply.wiper reply)

  abbrev started : Outcome
  started = commit_resolved_turn env last_turn rest

  abbrev reading_turn : ResolvedTurn
  reading_turn = Entry.into_resolved_turn (reading lux t' now')

  abbrev without_reading : Brain
  without_reading = record started.brain { barrier_queue = [] }

  pub last_answer-IsUntold :
      IsReachable env
      → b.barrier_queue
        ≡ waiting (
            asking t
              (FsmEvent.assembly_zone_ready AssemblyId.wiper)
              now
              AssemblyId.wiper
              (lifecycle_tell true AssemblyId.wiper))
          ∷ reading lux t' now'
          ∷ []
      → b.twin_car.current_state ≡ preparing true (AssemblyId.wiper ∷ [])
      → b.twin_car.context.headlamp.state ≡ HeadlampState.ready
      → leb lux lux_on_threshold ≡ true
      → reply.outcomes ≡ []
      → IsUntold (
          handle env
            (DigitalTwinCarVocabulary.zone_ready AssemblyId.wiper t 0 (ZoneReply.wiper reply))
            b)
  last_answer-IsUntold reachable waits here lamp dark quiet =
      let h = wiper_hop true b.twin_car.current_state b.twin_car.context now reply here quiet in
      let single : IsSingle last_turn rest =
        ap (λ s. endangered s (hop_of last_turn rest).modified_ctx) h.mode
        ∙ calm_reached true (hop_of last_turn rest).modified_ctx in
      let v = commit-Lands env last_turn rest reachable single h.plain in
      let k =
        reading_hop started.brain.twin_car.current_state started.brain.twin_car.context now' lux
          (ap (λ car. car.current_state) v.car ∙ h.mode)
          (ap (λ car. car.context.headlamp.state) v.car
            ∙ ap (λ (x : VehicleContext). x.headlamp.state) h.context
            ∙ lamp)
          dark in
      let single' : IsSingle reading_turn without_reading =
        ap (λ s. endangered s (hop_of reading_turn without_reading).modified_ctx) k.mode
        ∙ calm_reached true (hop_of reading_turn without_reading).modified_ctx in
      let plain' : has_lifecycle (hop_of reading_turn without_reading).actions ≡ false =
        ap has_lifecycle k.actions in
      let v' = commit-Lands env reading_turn without_reading reachable single' plain' in
      let timer = tell_back_timer AssemblyId.wiper t 0 in
      let head =
        answers_head env t (FsmEvent.assembly_zone_ready AssemblyId.wiper) now
          (lifecycle_tell true AssemblyId.wiper) (ZoneReply.wiper reply) (reading lux t' now' ∷ [])
          AssemblyId.wiper b in
      let handled =
        ap
          (λ q.
            handle env
              (DigitalTwinCarVocabulary.zone_ready AssemblyId.wiper t 0 (ZoneReply.wiper reply))
              (record b { barrier_queue = q }))
          waits
        ∙ head
        ∙ two_commits env timer (reading lux t' now') started v.success v.queue refl in
      subst (λ (o : Outcome). IsUntold o) (sym handled)
        (record {
          success = v'.success;
          mode = ap (λ car. car.current_state) v'.car ∙ k.mode;
          lamp = ap (λ car. car.context.headlamp.state) v'.car ∙ k.lamp;
          mute = any-append is_tell (abort timer ∷ started.effects) _ (v.mute) ∙ v'.mute;
        })
