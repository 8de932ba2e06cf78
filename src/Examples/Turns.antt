-- ===== src/Examples/Turns.antt =====
-- Whole turns at concrete inputs.
use sdv_simulation.Prelude.{[], ◌∷◌, ◌≡◌, inl, refl, sym, arith}
use sdv_simulation.Prelude.Result.{err}
use sdv_simulation.Modes.{FsmState, AssemblyId}
use sdv_simulation.Zones
use sdv_simulation.Twin.{ZoneReply}
use mathlib.Core.Option.{some-injective}
use sdv_simulation.Zones.Headlamp
use sdv_simulation.Zones.Headlamp.{HeadlampState, HeadlampMessage, HeadlampZoneReply}
use sdv_simulation.Fsm.Machineries.{FsmEvent}
use sdv_simulation.Fsm.{StepResult}
use sdv_simulation.Twin.Laws.{moving_while_off, rpm_too_low, verify_state_laws}
use sdv_simulation.Physics.{rounded_speed_kph}
use sdv_simulation.Fsm.{step}
use sdv_simulation.Fsm.Transition.{transition}
use sdv_simulation.Turn.Zone.{zone_turn}
use sdv_simulation.Turn.Replies.{ZoneReplies, simulate_locally, with_reply}
use sdv_simulation.Turn.{
  apply_single_hop, apply_external_hop, detect_internal_after_hop, quiesce, twin_turn,
  run_to_quiescence,
}
use sdv_simulation.Turn.Quiescence.{
  two_hops, Settles, run_to_quiescence-two_hops, run_to_quiescence-Settles,
}
use sdv_simulation.Turn.Buzzer.{IsSounded, run_to_quiescence_sound}
use sdv_simulation.Turn.Invariant.{IsValid, IsReply, run_to_quiescence-IsValid}
use sdv_simulation.Turn.Laws.{speed_of, late_ack_lights_parked_car}
use sdv_simulation.Turn.Breaches.{shutdown_breaks_locking, slow_driving_breaks_law}
use sdv_simulation.Examples.{rolling}

run_to_quiescence-two_hops_example :
    run_to_quiescence FsmState.idle rolling (FsmEvent.update_rpm 1200) 5 simulate_locally
    ≡ two_hops FsmState.idle rolling (FsmEvent.update_rpm 1200) 5 simulate_locally
run_to_quiescence-two_hops_example =
    run_to_quiescence-two_hops FsmState.idle rolling (FsmEvent.update_rpm 1200) 5 simulate_locally

run_to_quiescence-Settles_example :
    Settles (run_to_quiescence FsmState.idle rolling (FsmEvent.update_rpm 1200) 5 simulate_locally)
run_to_quiescence-Settles_example =
    run_to_quiescence-Settles FsmState.idle rolling (FsmEvent.update_rpm 1200) 5 simulate_locally

run_to_quiescence_sound_example :
    IsSounded FsmState.idle
      (run_to_quiescence FsmState.idle rolling (FsmEvent.update_rpm 1200) 5 simulate_locally)
run_to_quiescence_sound_example =
    run_to_quiescence_sound FsmState.idle rolling (FsmEvent.update_rpm 1200) 5 simulate_locally

rolling-IsValid : IsValid FsmState.idle rolling
unfolding rounded_speed_kph
rolling-IsValid = record {
  mode = tt;
  powertrain = record { wheels = refl; speed = inl refl };
  headlamp = record { clocked = refl };
}

-- The headlamp's own answer to the reading.
abbrev lamp_reply : HeadlampZoneReply
lamp_reply = Headlamp.on_receiving_message rolling.headlamp (HeadlampMessage.ambient_lux 900) 5

abbrev told_back : ZoneReplies
told_back = with_reply AssemblyId.headlamp (ZoneReply.headlamp lamp_reply)

-- The hop that takes it.
abbrev lit : StepResult
unfolding apply_single_hop
lit = apply_single_hop FsmState.idle rolling (FsmEvent.update_ambient_lux 900) 5 told_back

run_to_quiescence-IsValid_example : IsValid lit.next_state lit.modified_ctx
unfolding lit apply_single_hop apply_external_hop zone_turn step transition run_to_quiescence
    quiesce detect_internal_after_hop
run_to_quiescence-IsValid_example =
    run_to_quiescence-IsValid FsmState.idle rolling (FsmEvent.update_ambient_lux 900) 5 told_back
      (λ z h.
        IsReply.answered rolling.headlamp (HeadlampMessage.ambient_lux 900) 5
          (record { clocked = refl }) (sym (some-injective _ _ h)))
      rolling-IsValid lit refl

abbrev still : StepResult
unfolding apply_single_hop
still = apply_single_hop FsmState.off Zones.default (FsmEvent.update_rpm 3000) 5 simulate_locally

abbrev stopped : StepResult
unfolding apply_single_hop
stopped =
    apply_single_hop (FsmState.preparing_to_stop (AssemblyId.wiper ∷ [])) rolling
      (FsmEvent.assembly_zone_ready AssemblyId.wiper) 5 simulate_locally

shutdown_breaks_locking_example :
    (stopped.next_state ≡ FsmState.off)
    × (speed_of stopped.modified_ctx ≡ 91)
    × (verify_state_laws stopped.next_state stopped.modified_ctx
        ≡ err (record { law = "kinetic_locking"; detail = moving_while_off 91 } ∷ []))
unfolding stopped apply_single_hop apply_external_hop zone_turn step transition run_to_quiescence
    quiesce detect_internal_after_hop
shutdown_breaks_locking_example =
    shutdown_breaks_locking rolling AssemblyId.wiper 5 simulate_locally (omega arith) stopped refl

slow_driving_breaks_law_example :
    let f = twin_turn FsmState.driving rolling (FsmEvent.update_rpm 900) 5 in
    (f.next_state ≡ FsmState.driving)
    × (verify_state_laws f.next_state f.modified_ctx
        ≡ err (record { law = "rpm_above_threshold"; detail = rpm_too_low } ∷ []))
slow_driving_breaks_law_example = slow_driving_breaks_law rolling 900 5 (omega arith) (omega arith)

late_ack_lights_parked_car_example :
    let f = twin_turn FsmState.off Zones.default FsmEvent.front_headlamp_on_ack 5 in
    (f.next_state ≡ FsmState.off)
    × (f.modified_ctx.headlamp.state ≡ HeadlampState.on)
    × (f.actions ≡ [])
    × (verify_state_laws f.next_state f.modified_ctx ≡ verify_state_laws FsmState.off Zones.default)
late_ack_lights_parked_car_example = late_ack_lights_parked_car Zones.default 5
