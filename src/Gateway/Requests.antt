-- ===== src/Gateway/Requests.antt =====
-- Two requests of the controller's manager, through the gateway: actuation_manager.rs of
-- crates/common/src/twin_runtime/controller, crates/gateway/src/gateway_runtime.rs and
-- front_headlamp/policy.rs of crates/vehicle_device_bus/src/devices.
use sdv_simulation.Prelude.{◌+◌, ◌%◌, ◌≡◌, inr, refl, Bool, true, false, none, some, [], ◌∷◌, arith}
use sdv_simulation.Fsm.Machineries.{DomainAction}
use sdv_simulation.Twin.Identity.{Text}
use sdv_simulation.Actuation.{CorrelationId, DefaultActuationManager, execute, next_correlation_id}
use sdv_simulation.Bus.Policy.{FrontHeadlampPolicy, pending_of}
use sdv_simulation.Bus.Wire.{command_of}
use sdv_simulation.Can.{CanBus, IsLawful}
use sdv_simulation.Actuators.{Floats, should_respond}
use sdv_simulation.Actuators.LogQueue.{LogQueue}
use sdv_simulation.Actuators.Headlamp.{Draws, round}
use sdv_simulation.Gateway.{read_frame}
use sdv_simulation.Gateway.Egress.{publish}
use sdv_simulation.Gateway.Superseded.{older_response_dropped}

abbrev pub request : Bool → DomainAction
request true = DomainAction.request_front_headlamp_on
request false = DomainAction.request_front_headlamp_off

-- The id that a linked manager gives to its next headlamp command.
abbrev pub next_id : Text → DefaultActuationManager → CorrelationId
next_id source m = record {
  source_id = source;
  session_id = m.session_id;
  sequence_no = m.next_sequence_no;
}

execute-request :
    (on : Bool) (source : Text) (m : DefaultActuationManager)
    → m.source_id ≡ some source
    → m.has_channel ≡ true
    → (execute (request on) m).commands ≡ command_of on (next_id source m) ∷ []
unfolding execute next_correlation_id
execute-request true source m named linked = rw (named, linked) refl
execute-request false source m named linked = rw (named, linked) refl

after_request :
    (on : Bool) (source : Text) (m : DefaultActuationManager)
    → m.source_id ≡ some source
    → m.has_channel ≡ true
    → let m' = (execute (request on) m).manager in
      (m'.source_id ≡ some source)
      × (m'.has_channel ≡ true)
      × (m'.next_sequence_no ≡ (m.next_sequence_no + 1) % 18446744073709551616)
unfolding execute next_correlation_id
after_request true source m named linked = rw (named, linked) (refl, linked, refl)
after_request false source m named linked = rw (named, linked) (refl, linked, refl)

module _ (bus : CanBus) (lawful : IsLawful bus) (floats : Floats) (d : Draws bus floats) where
  -- Of two headlamp actions that a linked manager executes one after the other, each is one
  -- command; if both commands are published before the actuator's response to the first is read,
  -- that response is passed over and the second command stays pending, wherever the manager's
  -- counter stands.
  pub second_request_stands :
      (policy : FrontHeadlampPolicy) (q : LogQueue) (on_old on_new : Bool) (source : Text)
      (m : DefaultActuationManager)
      → m.source_id ≡ some source
      → m.has_channel ≡ true
      → should_respond floats d.dont_respond_prob d.respond_draw ≡ true
      → let m' = (execute (request on_old) m).manager in
        let old = command_of on_old (next_id source m) in
        let new = command_of on_new (next_id source m') in
        let first = (publish bus policy old).0 in
        let second = (publish bus first new).0 in
        ((execute (request on_old) m).commands ≡ old ∷ [])
        × ((execute (request on_new) m').commands ≡ new ∷ [])
        × ((f : bus.Frame) × (g : bus.Frame) × ((publish bus policy old).1 ≡ some f)
            × ((round bus floats d (some f) q).1 ≡ some g)
            × (read_frame bus second (some g) ≡ (second, none))
            × (second.pending ≡ some (pending_of on_new (next_id source m'))))
  second_request_stands policy q on_old on_new source m named linked will =
      let m' = (execute (request on_old) m).manager in
      let (named', linked', next) = after_request on_old source m named linked in
      (
        execute-request on_old source m named linked,
        execute-request on_new source m' named' linked',
        older_response_dropped bus lawful floats d policy q on_old on_new (next_id source m)
            (next_id source m') will (inr (λ same. omega (arith, next, same))),
      )
