-- ===== src/Together/Switching/Window.antt =====
-- A reading of the light between the key and the assemblies' answers: virtual_car_actor.rs,
-- zone_turn.rs and headlamp_actor.rs of crates/common/src/twin_runtime.
use sdv_simulation.Prelude.{ℕ, true, false, [], ◌∷◌, ◌++◌, ◌≡◌, refl, ap, ◌∙◌, subst, leb, ◌+◌}
use sdv_simulation.Prelude.Result.{ok}
use sdv_simulation.Physics.{lux_on_threshold}
use sdv_simulation.Modes.{AssemblyId, FsmState, all_assemblies}
use sdv_simulation.Zones.{VehicleContext, is_healthy}
use sdv_simulation.Zones.Headlamp.{HeadlampState}
use sdv_simulation.Fsm.Machineries.{FsmEvent}
use sdv_simulation.Twin.{DigitalTwinCarVocabulary}
use sdv_simulation.Turn.Zone.{zone_message_for_event}
use sdv_simulation.Brain.{Env, Brain, did, read_clock, advance_id, tell_back_timer}
use sdv_simulation.Brain.Handle.{
  handle, ingest, begin_fsm_turn, pushed_turn, try_drain_barrier_queue, drain,
}
use sdv_simulation.Brain.Lacks.{any-append, IsFree}
use sdv_simulation.Brain.Tells.{is_tell}
use sdv_simulation.Brain.Retell.Runs.{handle_all}
use sdv_simulation.Brain.Success.{IsReachable}
use sdv_simulation.Together.{Twinlets, deliver_all}
use sdv_simulation.Together.Delivery.{deliver_all-mute}
use sdv_simulation.Together.Exchange.{idle_brain}
use sdv_simulation.Together.Runs.{and_then-ok}
use sdv_simulation.Together.Switching.{
  key, preparing, lamp_told_quietly, wiper_told_quietly, both_delivered,
}
use sdv_simulation.Together.Switching.Asked.{idle, hop, both_told, key_hop_here, key_turned}
use sdv_simulation.Together.Switching.Answers.{
  ordering, told_at, told_by_key, lamp_waits, behind_lamp, lamp_answer, lamp_reply, wiper_reply,
  replies, wiper,
}
use sdv_simulation.Together.Switching.Early.{reading, IsUntold, last_answer-IsUntold}

-- Two messages of which the first is handled without an error and tells nothing.
then-IsUntold :
    (env : Env) (first second : DigitalTwinCarVocabulary) (b : Brain)
    → let o = handle env first b in
      o.result ≡ ok tt
      → IsFree is_tell o
      → IsUntold (handle env second o.brain)
      → IsUntold (handle_all env (first ∷ second ∷ []) b)
then-IsUntold env first second b h mute v =
    let o = handle env first b in
    let o' = handle env second o.brain in
    rw
      (and_then-ok (handle_all env (second ∷ [])) o h, and_then-ok (handle_all env []) o' v.success)
      (record {
        success = refl;
        mode = v.mode;
        lamp = v.lamp;
        mute =
            any-append is_tell o.effects (o'.effects ++ []) mute
            ∙ any-append is_tell o'.effects [] v.mute;
      })

module _ (env : Env) (c : Brain) (z : Twinlets) (lux : ℕ) where
  abbrev told : Brain
  told = both_told env true c

  -- The reading stands behind the two turns that wait.
  abbrev watched : Brain
  watched = record told {
    next_turn_id = advance_id told.next_turn_id;
    clock_reads = told.clock_reads + 1;
    barrier_queue =
        lamp_waits env true c z
        ∷ (behind_lamp env true c z ++ (reading lux told.next_turn_id (read_clock env told) ∷ []));
  }

  reading_queued :
      (hop env true c).next_state ≡ preparing true all_assemblies
      → handle env (DigitalTwinCarVocabulary.fsm (FsmEvent.update_ambient_lux lux)) told
        ≡ did [] watched
  unfolding handle ingest begin_fsm_turn pushed_turn zone_message_for_event try_drain_barrier_queue
      drain
  reading_queued mode = rw mode refl

  answers-IsUntold :
      IsReachable env
      → (hop env true c).next_state ≡ preparing true all_assemblies
      → leb lux lux_on_threshold ≡ true
      → IsUntold (handle_all env (replies env true c z) watched)
  answers-IsUntold reachable mode dark =
      let (first, waits, prepares, seen, mute) =
        lamp_answer env true c z watched _ reachable refl refl mode in
      let quiet = lamp_told_quietly true z.headlamp.ctx (told_at env true c z) in
      then-IsUntold env (lamp_reply env true c z) (wiper_reply env true c z) watched first mute (
        last_answer-IsUntold env (handle env (lamp_reply env true c z) watched).brain
          (advance_id (ordering env true c z).next_turn_id) told.next_turn_id (told_at env true c z)
          (read_clock env told) lux (wiper env true c z) reachable waits prepares
          (ap (λ (x : VehicleContext). x.headlamp.state) seen ∙ quiet.1) dark
          (wiper_told_quietly true z.wiper.ctx))

abbrev pub IsMissed : Env → ℕ → Brain → Twinlets → Type 0
IsMissed env lux b z =
    let asked = handle env (DigitalTwinCarVocabulary.fsm (key true)) b in
    let (z', back) = deliver_all asked.effects z in
    let read =
      handle env (DigitalTwinCarVocabulary.fsm (FsmEvent.update_ambient_lux lux)) asked.brain in
    let done = handle_all env back read.brain in
    (read.result ≡ ok tt)
    × IsUntold done
    × (deliver_all (read.effects ++ done.effects) z' ≡ (z', []))
    × (z'.headlamp.ctx.state ≡ HeadlampState.ready)

module _ (env : Env) (c : Brain) (z : Twinlets) (lux : ℕ) where
  window_misses :
      IsReachable env
      → c.twin_car.current_state ≡ FsmState.off
      → is_healthy c.twin_car.context ≡ true
      → z.headlamp.silent ≡ false
      → z.wiper.silent ≡ false
      → leb lux lux_on_threshold ≡ true
      → IsMissed env lux (idle env true c) z
  window_misses reachable here healthy lamp_speaks wiper_speaks dark =
      let (mode, same, asks) = key_hop_here env true c here (λ up. healthy) in
      let t = (ordering env true c z).next_turn_id in
      let (told_back, lamp_is, lamp_still, wiper_is, wiper_still) =
        both_delivered true t (advance_id t) (told_at env true c z)
          (tell_back_timer AssemblyId.headlamp t 0)
          (tell_back_timer AssemblyId.wiper (advance_id t) 0) z lamp_speaks wiper_speaks in
      let v = answers-IsUntold env c z lux reachable mode dark in
      rw
        (
          key_turned env true c reachable here (λ up. healthy),
          told_by_key env true c z,
          told_back,
          reading_queued env c z lux mode,
        )
        (
          refl,
          v,
          deliver_all-mute _ _ v.mute,
          ap (λ x. x.state) lamp_is
              ∙ (lamp_told_quietly true z.headlamp.ctx (told_at env true c z)).1,
        )

-- While every zone is reachable, with the car off and healthy, nothing waiting and twinlets that
-- answer, let a dark reading of the light arrive between the key's start and the assemblies'
-- answers. After those answers the car is idle and the brain holds the lamp for requested on,
-- but neither the reading nor the answers made it tell a zone anything, and the headlamp's twinlet
-- is ready.
pub reading_in_window_untold :
    (env : Env) (lux : ℕ) (b : Brain) (z : Twinlets)
    → IsReachable env
    → b.barrier_queue ≡ []
    → b.twin_car.current_state ≡ FsmState.off
    → is_healthy b.twin_car.context ≡ true
    → z.headlamp.silent ≡ false
    → z.wiper.silent ≡ false
    → leb lux lux_on_threshold ≡ true
    → IsMissed env lux b z
reading_in_window_untold env lux b z reachable waits here healthy lamp wiper dark =
    subst (λ (x : Brain). IsMissed env lux x z) (idle_brain b waits)
      (window_misses env b z lux reachable here healthy lamp wiper dark)
