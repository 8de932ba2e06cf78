-- ===== src/Gateway/Telemetry.antt =====
-- Telemetry's way into the twin: a signal of crates/common/src/signals.rs, sent as a frame, read
-- by the gateway (crates/gateway/src/gateway_runtime.rs) and projected.
use sdv_simulation.Prelude.{◌≡◌, refl, true, false, Option, none, some}
use sdv_simulation.Prelude.Result.{ok}
use sdv_simulation.Fsm.Machineries.{FsmEvent}
use sdv_simulation.Ingress.{VssSignal, PhysicalCarVocabulary, project, fsm}
use sdv_simulation.Bus.Policy.{FrontHeadlampPolicy}
use sdv_simulation.Can.{CanBus, IsLawful}
use sdv_simulation.Can.Signals.{Fits, as_read, to_can_frame, from_can_frame-to_can_frame}
use sdv_simulation.Gateway.{CanIngressEnvelope, physical, read_frame, hear, hear_signal}

-- The event that a signal stands for; the observed speed is not wired to the twin.
abbrev pub event_of : VssSignal → Option FsmEvent
event_of (VssSignal.vehicle_speed s) = none
event_of (VssSignal.engine_rpm rpm) = some (FsmEvent.update_rpm rpm)
event_of (VssSignal.ambient_lux lux) = some (FsmEvent.update_ambient_lux lux)
event_of (VssSignal.rain_detected true) = some FsmEvent.rains_started
event_of (VssSignal.rain_detected false) = some FsmEvent.rains_stopped

-- The reader passes on what projects to the event, or nothing.
abbrev pub HeardAs : Option FsmEvent → Option CanIngressEnvelope → Type 0
HeardAs none heard = heard ≡ none
HeardAs (some event) heard =
    (p : PhysicalCarVocabulary) × (heard ≡ some (physical p)) × (project p ≡ fsm event)

hear_signal_as :
    (policy : FrontHeadlampPolicy) (signal : VssSignal)
    → ((hear_signal policy signal).0 ≡ policy)
      × HeardAs (event_of signal) (hear_signal policy signal).1
unfolding project
hear_signal_as policy (VssSignal.vehicle_speed s) = (refl, refl)
hear_signal_as policy (VssSignal.engine_rpm rpm) = (refl, (_, refl, refl))
hear_signal_as policy (VssSignal.ambient_lux lux) = (refl, (_, refl, refl))
hear_signal_as policy (VssSignal.rain_detected true) = (refl, (_, refl, refl))
hear_signal_as policy (VssSignal.rain_detected false) = (refl, (_, refl, refl))

-- The reader drops a speed, so that what its frame has cut off makes no difference.
hear_signal-as_read :
    (policy : FrontHeadlampPolicy) (signal : VssSignal)
    → hear_signal policy (as_read signal) ≡ hear_signal policy signal
hear_signal-as_read policy (VssSignal.vehicle_speed val) = refl
hear_signal-as_read policy (VssSignal.engine_rpm rpm) = refl
hear_signal-as_read policy (VssSignal.ambient_lux lux) = refl
hear_signal-as_read policy (VssSignal.rain_detected rain) = refl

module _ (bus : CanBus) (lawful : IsLawful bus) where
  -- The frame of a signal, and that the reader does with it what it does with the signal.
  pub signal_heard :
      (signal : VssSignal)
      → Fits signal
      → (f : bus.Frame) × (to_can_frame bus signal ≡ ok f)
        × ((policy : FrontHeadlampPolicy)
            → read_frame bus policy (some f) ≡ hear_signal policy signal)
  unfolding read_frame hear
  signal_heard signal fits =
      let (f, made, back) = from_can_frame-to_can_frame bus lawful signal fits in
      (f, made, λ policy. rw back (hear_signal-as_read policy signal))

  -- A signal that is sent as a frame and read by the gateway leaves the policy alone and becomes
  -- the twin's event for it; a speed becomes nothing.
  telemetry_heard :
      (policy : FrontHeadlampPolicy) (signal : VssSignal)
      → Fits signal
      → (f : bus.Frame) × (to_can_frame bus signal ≡ ok f)
        × ((read_frame bus policy (some f)).0 ≡ policy)
        × HeardAs (event_of signal) (read_frame bus policy (some f)).1
  telemetry_heard policy signal fits =
      let (f, made, same) = signal_heard signal fits in
      let (kept, heard) = hear_signal_as policy signal in
      (f, made, rw (same policy) kept, rw (same policy) heard)
