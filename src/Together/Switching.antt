-- ===== src/Together/Switching.antt =====
-- Switching the car on and off, from the key to the last assembly's answer: virtual_car_actor.rs,
-- headlamp_actor.rs and wiper_actor.rs of crates/common/src/twin_runtime, and the mode's part in
-- crates/common/src/fsm/transition_map.rs.
pub mod Asked
pub mod Answers
pub mod Completes
pub mod Early
pub mod Window
use sdv_simulation.Prelude.{
  ℕ, ◌+◌, Bool, true, false, List, [], ◌∷◌, ◌++◌, none, some, ◌≡◌, refl, sym, ap, ◌∙◌, arith,
  if◌then◌else◌,
}
use sdv_simulation.Prelude.Result.{ok}
use sdv_simulation.Physics.{Instant}
use sdv_simulation.Modes.{AssemblyId, FsmState, all_assemblies}
use sdv_simulation.Zones.{VehicleContext, is_healthy}
use sdv_simulation.Fsm.Machineries.{FsmEvent, DomainAction}
use sdv_simulation.Fsm.{step, StepResult}
use sdv_simulation.Fsm.Transition.{transition, from_off, output}
use sdv_simulation.Twin.{ZoneMessage, ZoneReply, DigitalTwinCarVocabulary}
use sdv_simulation.Zones.Headlamp.{
  HeadlampState, HeadlampMessage, HeadlampContext, HeadlampZoneReply,
}
use sdv_simulation.Zones.Headlamp
use sdv_simulation.Zones.Wiper.{WiperMessage, WiperContext, WiperZoneReply}
use sdv_simulation.Zones.Wiper
use sdv_simulation.Turn.Routine.{has_lifecycle}
use sdv_simulation.Twinlet.{handle_apply, wiper_handle_apply}
use sdv_simulation.Together.{Twinlets, deliver, deliver_all}
use sdv_simulation.Turn.Replies.{ZoneReplies, with_reply}
use sdv_simulation.Turn.Zone.{zone_turn}
use sdv_simulation.Turn.{apply_single_hop, apply_external_hop}
use sdv_simulation.Barrier.{TellBackTimer}
use sdv_simulation.Barrier.Entry.{waiting}
use sdv_simulation.Brain.{
  Env, Brain, Outcome, Effect, tell, arm, did, tell_zone, read_clock, advance_id, tell_back_timer,
  become_on_message_for, become_off_message_for,
}
use sdv_simulation.Brain.Commit.{dispatch_all, dispatch, begin_assembly_zones, begin_assembly_zone}
use sdv_simulation.Brain.Success.{IsReachable}
use sdv_simulation.Together.Head.{asking}

abbrev pub key : Bool → FsmEvent
key true = FsmEvent.power_on
key false = FsmEvent.power_off

-- The mode before the key, and the one after the last answer.
abbrev pub resting : Bool → FsmState
resting true = FsmState.off
resting false = FsmState.idle

abbrev pub reached : Bool → FsmState
reached true = FsmState.idle
reached false = FsmState.off

abbrev pub preparing : Bool → List AssemblyId → FsmState
preparing true = FsmState.preparing_to_start
preparing false = FsmState.preparing_to_stop

abbrev pub order : Bool → DomainAction
order true = DomainAction.start_assemblies all_assemblies
order false = DomainAction.stop_assemblies all_assemblies

abbrev pub lifecycle_tell : Bool → AssemblyId → ZoneMessage
lifecycle_tell true = become_on_message_for
lifecycle_tell false = become_off_message_for

-- The hop of the key: preparing for all assemblies, which are told to start or to stop.
pub key_hop :
    (up : Bool) (c : VehicleContext) (now : Instant) (r : ZoneReplies)
    → (up ≡ true → is_healthy c ≡ true)
    → let h = apply_single_hop (resting up) c (key up) now r in
      (h.next_state ≡ preparing up all_assemblies)
      × (h.modified_ctx ≡ c)
      × (h.actions ≡ order up ∷ [])
unfolding apply_single_hop apply_external_hop zone_turn step transition output from_off
key_hop true c now r healthy = rw (healthy refl) (refl, refl, refl)
key_hop false c now r healthy = (refl, refl, refl)

-- What the hop of an assembly's answer leaves.
pub record IsAnswerHop (next : FsmState) (ctx : VehicleContext) (h : StepResult) : Type 0 where
  pub mode : h.next_state ≡ next
  pub context : h.modified_ctx ≡ ctx
  pub plain : has_lifecycle h.actions ≡ false

pub headlamp_hop :
    (up : Bool) (s : FsmState) (c : VehicleContext) (now : Instant) (reply : HeadlampZoneReply)
    → s ≡ preparing up all_assemblies
    → reply.outcomes ≡ []
    → IsAnswerHop
        (preparing up (AssemblyId.wiper ∷ []))
        (record c { headlamp = reply.ctx })
        (apply_single_hop s c
          (FsmEvent.assembly_zone_ready AssemblyId.headlamp)
          now
          (with_reply AssemblyId.headlamp (ZoneReply.headlamp reply)))
unfolding apply_single_hop apply_external_hop zone_turn step transition output
headlamp_hop true s c now reply here none_said =
    rw (here, none_said) (record { mode = refl; context = refl; plain = refl })
headlamp_hop false s c now reply here none_said =
    rw (here, none_said) (record { mode = refl; context = refl; plain = refl })

pub wiper_hop :
    (up : Bool) (s : FsmState) (c : VehicleContext) (now : Instant) (reply : WiperZoneReply)
    → s ≡ preparing up (AssemblyId.wiper ∷ [])
    → reply.outcomes ≡ []
    → IsAnswerHop
        (reached up)
        (record c { wiper = reply.ctx })
        (apply_single_hop s c
          (FsmEvent.assembly_zone_ready AssemblyId.wiper)
          now
          (with_reply AssemblyId.wiper (ZoneReply.wiper reply)))
unfolding apply_single_hop apply_external_hop zone_turn step transition output
wiper_hop true s c now reply here none_said =
    rw (here, none_said) (record { mode = refl; context = refl; plain = refl })
wiper_hop false s c now reply here none_said =
    rw (here, none_said) (record { mode = refl; context = refl; plain = refl })

-- What the two zones are told.
abbrev pub lamp_message : Bool → HeadlampMessage
lamp_message true = HeadlampMessage.become_on
lamp_message false = HeadlampMessage.become_off

abbrev pub wiper_message : Bool → WiperMessage
wiper_message true = WiperMessage.become_on
wiper_message false = WiperMessage.become_off

pub lamp_told_quietly :
    (up : Bool) (c : HeadlampContext) (now : Instant)
    → let reply = Headlamp.on_receiving_message c (lamp_message up) now in
      (reply.outcomes ≡ [])
      × (reply.ctx.state ≡ (if up then HeadlampState.ready else HeadlampState.off))
unfolding Headlamp.on_receiving_message Headlamp.apply_in_place
lamp_told_quietly true c now = (refl, refl)
lamp_told_quietly false c now = (refl, refl)

pub wiper_told_quietly :
    (up : Bool) (c : WiperContext) → (Wiper.on_receiving_message c (wiper_message up)).outcomes ≡ []
unfolding Wiper.on_receiving_message
wiper_told_quietly true c = ground arith
wiper_told_quietly false c = ground arith

pub both_delivered :
    (up : Bool) (t t' : ℕ) (now : Instant) (timer timer' : TellBackTimer) (z : Twinlets)
    → z.headlamp.silent ≡ false
    → z.wiper.silent ≡ false
    → let d =
        deliver_all
          (tell (lifecycle_tell up AssemblyId.headlamp) t 0 now
            ∷ arm timer
            ∷ tell (lifecycle_tell up AssemblyId.wiper) t' 0 now
            ∷ arm timer'
            ∷ [])
          z in
      let lamp = Headlamp.on_receiving_message z.headlamp.ctx (lamp_message up) now in
      let wiper = Wiper.on_receiving_message z.wiper.ctx (wiper_message up) in
      (d.1
        ≡ DigitalTwinCarVocabulary.zone_ready AssemblyId.headlamp t 0 (ZoneReply.headlamp lamp)
          ∷ DigitalTwinCarVocabulary.zone_ready AssemblyId.wiper t' 0 (ZoneReply.wiper wiper)
          ∷ [])
      × (d.0.headlamp.ctx ≡ lamp.ctx)
      × (d.0.headlamp.silent ≡ false)
      × (d.0.wiper.ctx ≡ wiper.ctx)
      × (d.0.wiper.silent ≡ false)
unfolding deliver_all deliver handle_apply wiper_handle_apply Headlamp.on_receiving_message
    Wiper.on_receiving_message
both_delivered true t t' now timer timer' z lamp wiper =
    rw (lamp, wiper) (refl, refl, refl, refl, refl)
both_delivered false t t' now timer timer' z lamp wiper =
    rw (lamp, wiper) (refl, refl, refl, refl, refl)

-- The effects of the order, and the brain that waits for both assemblies.
abbrev pub ordered_effects : Env → Bool → Brain → List Effect
ordered_effects env up b =
    let t = b.next_turn_id in
    let t' = advance_id t in
    let now = read_clock env b in
    tell (lifecycle_tell up AssemblyId.headlamp) t 0 now
    ∷ arm (tell_back_timer AssemblyId.headlamp t 0)
    ∷ tell (lifecycle_tell up AssemblyId.wiper) t' 0 now
    ∷ arm (tell_back_timer AssemblyId.wiper t' 0)
    ∷ []

abbrev pub ordered_brain : Env → Bool → Brain → Brain
ordered_brain env up b =
    let t = b.next_turn_id in
    let t' = advance_id t in
    let now = read_clock env b in
    let ready = FsmEvent.assembly_zone_ready in
    record b {
      next_turn_id = advance_id t';
      clock_reads = b.clock_reads + 1;
      barrier_queue =
          waiting (
            asking t (ready AssemblyId.headlamp) now AssemblyId.headlamp
              (lifecycle_tell up AssemblyId.headlamp))
          ∷ waiting (
              asking t' (ready AssemblyId.wiper) now AssemblyId.wiper
                (lifecycle_tell up AssemblyId.wiper))
          ∷ [];
    }

pub order_tells_both :
    (env : Env) (up : Bool) (c : Brain)
    → IsReachable env
    → let b = record c { barrier_queue = [] } in
      dispatch_all env (order up ∷ []) b ≡ did (ordered_effects env up b) (ordered_brain env up b)
unfolding dispatch_all dispatch begin_assembly_zones begin_assembly_zone tell_zone
order_tells_both env true c reachable =
    let t = c.next_turn_id in
    rw
      (
        reachable (lifecycle_tell true AssemblyId.headlamp) t 0,
        reachable (lifecycle_tell true AssemblyId.wiper) (advance_id t) 0,
      )
      refl
order_tells_both env false c reachable =
    let t = c.next_turn_id in
    rw
      (
        reachable (lifecycle_tell false AssemblyId.headlamp) t 0,
        reachable (lifecycle_tell false AssemblyId.wiper) (advance_id t) 0,
      )
      refl
