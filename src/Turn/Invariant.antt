-- ===== src/Turn/Invariant.antt =====
-- What every turn of crates/common/src/twin_runtime/twin_turn.rs keeps of mode and context.
use sdv_simulation.Prelude.{
  ℕ, List, [], ◌∷◌, Option, none, some, ◌≡◌, ◌⊎◌, inl, inr, refl, arith, Option-cases,
}
use mathlib.Core.Option.{some-injective}
use sdv_simulation.Physics.{Instant, rounded_speed_kph}
use sdv_simulation.Modes.{FsmState, AssemblyId, Operational}
use sdv_simulation.Zones.{VehicleContext}
use sdv_simulation.Zones.Powertrain.{
  PowertrainContext, uniform, primary_rpm, apply_rpm, refresh_speed, freeze_standstill,
}
use sdv_simulation.Zones.Headlamp.{HeadlampMessage, HeadlampContext, HeadlampZoneReply}
use sdv_simulation.Zones.Headlamp
use sdv_simulation.Barrier.Wait.{synthetic_unresponsive_headlamp_reply}
use sdv_simulation.Zones.Headlamp.Acks.{on_receiving_message-IsValid}
use sdv_simulation.Zones.Headlamp.Acks
use sdv_simulation.Fsm.Machineries.{FsmEvent}
use sdv_simulation.Fsm.Transition.{transition}
use sdv_simulation.Fsm.{StepResult, step}
use sdv_simulation.Turn.Replies.{ZoneReplies}
use sdv_simulation.Turn.Zone.{
  zone_turn, apply_telemetry_rpm, headlamp_ingress, merge_headlamp_for_message,
}
use sdv_simulation.Turn.{apply_single_hop, apply_external_hop, run_to_quiescence, final_step}
use sdv_simulation.Turn.Quiescence.{turn_cases}

-- The assemblies that a countdown waits for: at least one, each once, in order.
abbrev pub IsCountdown : List AssemblyId → Type 0
IsCountdown r =
    (r ≡ AssemblyId.headlamp ∷ AssemblyId.wiper ∷ [])
    ⊎ ((r ≡ AssemblyId.headlamp ∷ []) ⊎ (r ≡ AssemblyId.wiper ∷ []))

abbrev pub IsMode : FsmState → Type 0
IsMode (FsmState.preparing_to_start r) = IsCountdown r
IsMode (FsmState.preparing_to_stop r) = IsCountdown r
IsMode _ = Unit

-- One rpm on all wheels, and the speed that follows from it, or standstill.
pub record IsKinematic (p : PowertrainContext) : Type 0 where
  pub wheels : p.wheel_rpm ≡ uniform (primary_rpm p)
  pub speed : (p.speed_kph ≡ rounded_speed_kph (primary_rpm p)) ⊎ (p.speed_kph ≡ 0)

pub record IsValid (s : FsmState) (c : VehicleContext) : Type 0 where
  pub mode : IsMode s
  pub powertrain : IsKinematic c.powertrain
  pub headlamp : Acks.IsValid c.headlamp

-- What stands for the headlamp's reply: what a headlamp zone with a valid context answers to some
-- message, or the reply that is made for a zone that does not answer, from a valid context.
pub data IsReply (z : HeadlampZoneReply) : Type 0 where
  answered :
      (c : HeadlampContext) (m : HeadlampMessage) (at : Instant)
      → Acks.IsValid c
      → z ≡ Headlamp.on_receiving_message c m at
      → IsReply z
  synthetic :
      (c : HeadlampContext)
      → Acks.IsValid c
      → z ≡ synthetic_unresponsive_headlamp_reply c
      → IsReply z

abbrev pub AreReplies : ZoneReplies → Type 0
AreReplies r = (z : HeadlampZoneReply) → headlamp_ingress r ≡ some z → IsReply z

abbrev AreValid : ZoneReplies → Type 0
AreValid r = (z : HeadlampZoneReply) → headlamp_ingress r ≡ some z → Acks.IsValid z.ctx

IsReply-valid : (z : HeadlampZoneReply) → IsReply z → Acks.IsValid z.ctx
IsReply-valid z (IsReply.answered c m at v e) = rw e (on_receiving_message-IsValid c m at v)
IsReply-valid z (IsReply.synthetic c v e) = rw e v

apply_telemetry_rpm-IsKinematic :
    (rpm : ℕ) (s : FsmState) (p : PowertrainContext) → IsKinematic (apply_telemetry_rpm rpm s p)
unfolding apply_telemetry_rpm apply_rpm refresh_speed freeze_standstill
apply_telemetry_rpm-IsKinematic rpm FsmState.off p = record { wheels = refl; speed = inr refl }
apply_telemetry_rpm-IsKinematic rpm _ p = record { wheels = refl; speed = inl refl }

merge-IsValid :
    (c : VehicleContext) (m : HeadlampMessage) (now : Instant) (o : Option HeadlampZoneReply)
    → ((z : HeadlampZoneReply) → o ≡ some z → Acks.IsValid z.ctx)
    → Acks.IsValid c.headlamp
    → Acks.IsValid (merge_headlamp_for_message c m now o).ctx
unfolding merge_headlamp_for_message
merge-IsValid c m now none replied v = on_receiving_message-IsValid c.headlamp m now v
merge-IsValid c m now (some z) replied v = replied z refl

zone_turn-headlamp :
    (c : VehicleContext) (e : FsmEvent) (s : FsmState) (now : Instant) (r : ZoneReplies)
    → AreValid r
    → Acks.IsValid c.headlamp
    → Acks.IsValid (zone_turn c e s now r).ctx.headlamp
unfolding zone_turn
zone_turn-headlamp c (FsmEvent.update_ambient_lux lux) s now r q v = merge-IsValid c _ now _ q v
zone_turn-headlamp c FsmEvent.front_headlamp_on_ack s now r q v = merge-IsValid c _ now _ q v
zone_turn-headlamp c FsmEvent.front_headlamp_off_ack s now r q v = merge-IsValid c _ now _ q v
zone_turn-headlamp c (FsmEvent.front_headlamp_actuation_incomplete d k) s now r q v =
    merge-IsValid c _ now _ q v
zone_turn-headlamp c FsmEvent.timer_tick s now r q v = merge-IsValid c _ now _ q v
zone_turn-headlamp c (FsmEvent.assembly_zone_ready AssemblyId.headlamp) s now r q v =
    elim (Option-cases (headlamp_ingress r)) [
      | inl e ↦ rw (e, zone_turn) v
      | inr (z, e) ↦ rw (e, zone_turn) (q z e)
    ]
zone_turn-headlamp c (FsmEvent.assembly_zone_ready AssemblyId.wiper) s now r q v = ground arith
zone_turn-headlamp c _ s now r q v = v

zone_turn-powertrain :
    (c : VehicleContext) (e : FsmEvent) (s : FsmState) (now : Instant) (r : ZoneReplies)
    → IsKinematic c.powertrain
    → IsKinematic (zone_turn c e s now r).ctx.powertrain
unfolding zone_turn
zone_turn-powertrain c (FsmEvent.update_rpm rpm) s now r k =
    apply_telemetry_rpm-IsKinematic rpm s c.powertrain
zone_turn-powertrain c (FsmEvent.assembly_zone_ready AssemblyId.headlamp) s now r k = ground arith
zone_turn-powertrain c (FsmEvent.assembly_zone_ready AssemblyId.wiper) s now r k = ground arith
zone_turn-powertrain c _ s now r k = k

transition-IsMode :
    (s : FsmState) (e : FsmEvent) (c : VehicleContext) (now : Instant)
    → IsMode s
    → IsMode (transition s e c now).next_state
unfolding transition
transition-IsMode FsmState.off e c now m = ground arith
transition-IsMode _ e c now m = ground arith

step-IsValid :
    (s : FsmState) (c : VehicleContext) (e : FsmEvent) (now : Instant)
    → IsValid s c
    → IsValid (step s c e now).next_state (step s c e now).modified_ctx
unfolding step
step-IsValid s c e now v = record {
  mode = transition-IsMode s e c now v.mode;
  powertrain = v.powertrain;
  headlamp = v.headlamp;
}

external-IsValid :
    (s : FsmState) (c : VehicleContext) (e : FsmEvent) (now : Instant) (r : ZoneReplies)
    → AreValid r
    → IsValid s c
    → let h = apply_external_hop s c e now r in IsValid h.next_state h.modified_ctx
unfolding apply_external_hop
external-IsValid s c e now r q v = step-IsValid s (zone_turn c e s now r).ctx e now (record {
  mode = v.mode;
  powertrain = zone_turn-powertrain c e s now r v.powertrain;
  headlamp = zone_turn-headlamp c e s now r q v.headlamp;
})

hop-IsValid :
    (s : FsmState) (c : VehicleContext) (e : FsmEvent) (now : Instant) (r : ZoneReplies)
    → AreValid r
    → IsValid s c
    → let h = apply_single_hop s c e now r in IsValid h.next_state h.modified_ctx
unfolding apply_single_hop
hop-IsValid s c (FsmEvent.internal o) now r q v = step-IsValid s c (FsmEvent.internal o) now v
hop-IsValid s c _ now r q v = external-IsValid s c _ now r q v

-- A turn, told by the mode and the context that its last hop leaves, keeps them valid: countdowns
-- wait for some assembly, speed follows the rpm or is 0, and the headlamp's ACK clock runs exactly
-- while a request is in flight. A headlamp reply that it is given is one that a headlamp zone of a
-- valid context has answered some message with, or a synthetic one made from a valid context.
pub run_to_quiescence-IsValid :
    (s : FsmState) (c : VehicleContext) (e : FsmEvent) (now : Instant) (r : ZoneReplies)
    → AreReplies r
    → IsValid s c
    → (f : StepResult) → final_step (run_to_quiescence s c e now r) ≡ some f
    → IsValid f.next_state f.modified_ctx
run_to_quiescence-IsValid s c e now r q v =
    let kept = hop-IsValid s c e now r (λ z h. IsReply-valid z (q z h)) v in
    turn_cases s c e now r
      (λ hops. (f : StepResult) → final_step hops ≡ some f → IsValid f.next_state f.modified_ctx)
      (λ calm f last. rw (some-injective _ _ last) at kept)
      (λ danger drives f last.
        let h = apply_single_hop s c e now r in
        rw (some-injective _ _ last) at (
          step-IsValid FsmState.driving h.modified_ctx
            (FsmEvent.internal Operational.lighting_unsafe) now (rw drives at kept)))
