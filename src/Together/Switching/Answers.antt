-- ===== src/Together/Switching/Answers.antt =====
-- What the answers of the two assemblies make of a switch on or off:
-- virtual_car_actor.rs, headlamp_actor.rs and wiper_actor.rs of crates/common/src/twin_runtime.
use sdv_simulation.Prelude.{Bool, List, [], ◌∷◌, ◌++◌, ◌≡◌, refl, ap, ◌∙◌}
use sdv_simulation.Prelude.Result.{ok}
use sdv_simulation.Physics.{Instant}
use sdv_simulation.Modes.{AssemblyId, all_assemblies}
use sdv_simulation.Zones.{VehicleContext}
use sdv_simulation.Zones.Headlamp.{HeadlampState, HeadlampContext, HeadlampZoneReply}
use sdv_simulation.Zones.Headlamp
use sdv_simulation.Zones.Wiper.{WiperZoneReply}
use sdv_simulation.Zones.Wiper
use sdv_simulation.Fsm.Machineries.{FsmEvent}
use sdv_simulation.Twin.{ZoneReply, DigitalTwinCarVocabulary}
use sdv_simulation.Turn.Quiescence.{endangered}
use sdv_simulation.Barrier.Entry.{BarrierEntry, waiting}
use sdv_simulation.Brain.{Env, Brain, read_clock, advance_id}
use sdv_simulation.Brain.Handle.{handle}
use sdv_simulation.Brain.Landing.{IsSingle, hop_of, acting, recorded}
use sdv_simulation.Brain.Lacks.{any-append, IsFree, record-free, report-IsFree}
use sdv_simulation.Brain.Tells.{is_tell, is_tell-IsOutward}
use sdv_simulation.Brain.Drain.{IsSettled}
use sdv_simulation.Brain.Success.{IsReachable}
use sdv_simulation.Brain.Retell.Runs.{handle_all}
use sdv_simulation.Together.{Twinlets, deliver_all}
use sdv_simulation.Together.Delivery.{deliver_all-mute_front, deliver_all-mute_back}
use sdv_simulation.Together.Exchange.{opened}
use sdv_simulation.Together.Head.{asking, answered_by}
use sdv_simulation.Together.Landing.{answer-Lands}
use sdv_simulation.Together.Runs.{and_then-ok}
use sdv_simulation.Together.Switching.{
  reached, preparing, lifecycle_tell, lamp_message, wiper_message, headlamp_hop, wiper_hop,
  lamp_told_quietly, wiper_told_quietly, ordered_effects,
}
use sdv_simulation.Together.Switching.Asked.{
  calm_preparing, calm_reached, idle, hop, both_told, shown, key_effects,
}

pub two_handled :
    (env : Env) (first second : DigitalTwinCarVocabulary) (b : Brain)
    → let b' = (handle env first b).brain in
      (handle env first b).result ≡ ok tt
      → (handle env second b').result ≡ ok tt
      → let o = handle_all env (first ∷ second ∷ []) b in
        (o.result ≡ ok tt) × (o.brain ≡ (handle env second b').brain)
two_handled env first second b h k =
    let b' = (handle env first b).brain in
    rw
      (
        and_then-ok (handle_all env (second ∷ [])) (handle env first b) h,
        and_then-ok (handle_all env []) (handle env second b') k,
      )
      (refl, refl)

module _ (env : Env) (up : Bool) (c : Brain) (z : Twinlets) where
  -- The brain as it tells the assemblies, and the time of its tells.
  abbrev pub ordering : Brain
  ordering = acting (hop env up c) (opened (idle env up c))

  abbrev pub told_at : Instant
  told_at = read_clock env ordering

  abbrev pub lamp : HeadlampZoneReply
  lamp = Headlamp.on_receiving_message z.headlamp.ctx (lamp_message up) told_at

  abbrev pub wiper : WiperZoneReply
  wiper = Wiper.on_receiving_message z.wiper.ctx (wiper_message up)

  -- The key's effects are to the twinlets what the two tells are.
  pub told_by_key :
      deliver_all (key_effects env up c) z ≡ deliver_all (ordered_effects env up ordering) z
  told_by_key =
      let noted = recorded env (hop env up c) (opened (idle env up c)) in
      let tells = ordered_effects env up ordering in
      deliver_all-mute_back ((noted ++ []) ++ tells) (shown env up c).effects z (
        report-IsFree is_tell is_tell-IsOutward env c.twin_car.current_state
          c.twin_car.context.headlamp.state (hop env up c).modified_ctx.headlamp.state
          (both_told env up c))
      ∙ deliver_all-mute_front (noted ++ []) tells z (
          any-append is_tell noted [] (
            record-free is_tell is_tell-IsOutward env (opened (idle env up c)).next_record_seq
              (hop env up c).transition_record _))

  abbrev pub lamp_reply : DigitalTwinCarVocabulary
  lamp_reply =
      DigitalTwinCarVocabulary.zone_ready AssemblyId.headlamp ordering.next_turn_id 0
        (ZoneReply.headlamp lamp)

  abbrev pub wiper_reply : DigitalTwinCarVocabulary
  wiper_reply =
      DigitalTwinCarVocabulary.zone_ready AssemblyId.wiper (advance_id ordering.next_turn_id) 0
        (ZoneReply.wiper wiper)

  -- What waits behind the first answer.
  abbrev pub behind_lamp : List BarrierEntry
  behind_lamp =
      waiting (
        asking (advance_id ordering.next_turn_id) (FsmEvent.assembly_zone_ready AssemblyId.wiper)
          told_at AssemblyId.wiper (lifecycle_tell up AssemblyId.wiper))
      ∷ []

  -- What the first answer waits for.
  abbrev pub lamp_waits : BarrierEntry
  lamp_waits = waiting (
      asking ordering.next_turn_id (FsmEvent.assembly_zone_ready AssemblyId.headlamp) told_at
        AssemblyId.headlamp (lifecycle_tell up AssemblyId.headlamp))

  -- The first answer commits its hop and leaves what waits behind it.
  pub lamp_answer :
      (b : Brain) (es : List BarrierEntry)
      → IsReachable env
      → b.barrier_queue ≡ lamp_waits ∷ es
      → IsSettled es
      → b.twin_car.current_state ≡ preparing up all_assemblies
      → let o = handle env lamp_reply b in
        (o.result ≡ ok tt)
        × (o.brain.barrier_queue ≡ es)
        × (o.brain.twin_car.current_state ≡ preparing up (AssemblyId.wiper ∷ []))
        × (o.brain.twin_car.context ≡ record b.twin_car.context { headlamp = lamp.ctx })
        × IsFree is_tell o
  lamp_answer b es reachable waits settled mode =
      let ready = FsmEvent.assembly_zone_ready AssemblyId.headlamp in
      let turn = answered_by ready told_at AssemblyId.headlamp (ZoneReply.headlamp lamp) in
      let quiet = lamp_told_quietly up z.headlamp.ctx told_at in
      let h =
        headlamp_hop up b.twin_car.current_state b.twin_car.context told_at lamp mode quiet.0 in
      let rest = record b { barrier_queue = es } in
      let single : IsSingle turn rest =
        ap (λ s. endangered s (hop_of turn rest).modified_ctx) h.mode
        ∙ calm_preparing up (AssemblyId.wiper ∷ []) (hop_of turn rest).modified_ctx in
      let v =
        answer-Lands env ordering.next_turn_id ready told_at AssemblyId.headlamp
          (lifecycle_tell up AssemblyId.headlamp) (ZoneReply.headlamp lamp) es b reachable waits
          settled single h.plain in
      (
        v.success,
        v.queue,
        ap (λ car. car.current_state) v.car ∙ h.mode,
        ap (λ car. car.context) v.car ∙ h.context,
        v.mute,
      )

  -- The second answer commits the hop that ends the preparation, and nothing waits any more.
  wiper_answer :
      (b : Brain)
      → IsReachable env
      → b.barrier_queue ≡ behind_lamp
      → b.twin_car.current_state ≡ preparing up (AssemblyId.wiper ∷ [])
      → let o = handle env wiper_reply b in
        (o.result ≡ ok tt)
        × (o.brain.barrier_queue ≡ [])
        × (o.brain.twin_car.current_state ≡ reached up)
        × (o.brain.twin_car.context ≡ record b.twin_car.context { wiper = wiper.ctx })
  wiper_answer b reachable waits mode =
      let ready = FsmEvent.assembly_zone_ready AssemblyId.wiper in
      let turn = answered_by ready told_at AssemblyId.wiper (ZoneReply.wiper wiper) in
      let h =
        wiper_hop up b.twin_car.current_state b.twin_car.context told_at wiper mode
          (wiper_told_quietly up z.wiper.ctx) in
      let rest = record b { barrier_queue = [] } in
      let single : IsSingle turn rest =
        ap (λ s. endangered s (hop_of turn rest).modified_ctx) h.mode
        ∙ calm_reached up (hop_of turn rest).modified_ctx in
      let v =
        answer-Lands env (advance_id ordering.next_turn_id) ready told_at AssemblyId.wiper
          (lifecycle_tell up AssemblyId.wiper) (ZoneReply.wiper wiper) [] b reachable waits tt
          single h.plain in
      (
        v.success,
        v.queue,
        ap (λ car. car.current_state) v.car ∙ h.mode,
        ap (λ car. car.context) v.car ∙ h.context,
      )

  abbrev pub replies : List DigitalTwinCarVocabulary
  replies = lamp_reply ∷ wiper_reply ∷ []

  pub answers_switch :
      IsReachable env
      → (hop env up c).next_state ≡ preparing up all_assemblies
      → let o = handle_all env replies (both_told env up c) in
        (o.result ≡ ok tt)
        × (o.brain.barrier_queue ≡ [])
        × (o.brain.twin_car.current_state ≡ reached up)
        × (o.brain.twin_car.context
            ≡ record (hop env up c).modified_ctx { headlamp = lamp.ctx; wiper = wiper.ctx })
  answers_switch reachable mode =
      let (first, waits, prepares, seen, mute) =
        lamp_answer (both_told env up c) behind_lamp reachable refl refl mode in
      let (second, idle_again, ends, seen_both) =
        wiper_answer (handle env lamp_reply (both_told env up c)).brain reachable waits prepares in
      let (success, same) =
        two_handled env lamp_reply wiper_reply (both_told env up c) first second in
      (
        success,
        ap (λ (b : Brain). b.barrier_queue) same ∙ idle_again,
        ap (λ (b : Brain). b.twin_car.current_state) same ∙ ends,
        ap (λ (b : Brain). b.twin_car.context) same
            ∙ seen_both
            ∙ ap (λ (x : VehicleContext). record x { wiper = wiper.ctx }) seen,
      )
