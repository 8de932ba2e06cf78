-- ===== src/Gateway/Delivery.antt =====
-- Envelopes into the twin: the dispatch loop of crates/gateway/src/gateway_runtime.rs over all that
-- the reader passes on.
use sdv_simulation.Prelude.{◌≡◌, refl, ap, Option, none, some, List, [], ◌∷◌, All}
use sdv_simulation.Prelude.Result.{Result, ok, err}
use sdv_simulation.Twin.{DigitalTwinCarVocabulary}
use sdv_simulation.Ingress.{PhysicalCarVocabulary, ProjectionError, project}
use sdv_simulation.Bus.Policy.{FrontHeadlampPolicy}
use sdv_simulation.Bus.Accepted.{Projects}
use sdv_simulation.Can.{CanBus}
use sdv_simulation.Controller.{ActorRef, submit_physical_car_event}
use sdv_simulation.Gateway.{CanIngressEnvelope, physical, actuation_response}
use sdv_simulation.Gateway.Dispatch.{
  IngressLog, Sinks, channel_closed, dispatch, run_dispatch_loop, logged_after,
  format_front_headlamp_ingress,
}
use sdv_simulation.Gateway.Streams.{content, Turn, read_all, read_all-Projects}

module _ (actor : ActorRef) (push : DigitalTwinCarVocabulary → actor.Mailbox → actor.Mailbox) where
  abbrev queued : Result ProjectionError DigitalTwinCarVocabulary → actor.Mailbox → actor.Mailbox
  queued (ok message) mailbox = push message mailbox
  queued (err e) mailbox = mailbox

  -- The mailbox with the events of the envelopes behind one another.
  abbrev pub queue_all : List CanIngressEnvelope → actor.Mailbox → actor.Mailbox
  queue_all [] mailbox = mailbox
  queue_all (e ∷ es) mailbox = queue_all es (queued (project (content e)) mailbox)

  module _
      (takes : (m : DigitalTwinCarVocabulary) (b : actor.Mailbox)
        → actor.send_message m b ≡ some (push m b)) where
    submit_delivers :
        (heard : PhysicalCarVocabulary) (mailbox : actor.Mailbox)
        → Projects heard
        → submit_physical_car_event actor heard mailbox ≡ ok (queued (project heard) mailbox)
    unfolding submit_physical_car_event
    submit_delivers heard mailbox (event, e) = rw (e, takes) refl

    dispatch_delivers :
        (e : CanIngressEnvelope) (sinks : Sinks actor)
        → Projects (content e)
        → (log : Option IngressLog) × (dispatch actor e sinks
            ≡ ok (record { mailbox = queued (project (content e)) sinks.mailbox; log = log }))
    unfolding dispatch
    dispatch_delivers (physical heard) sinks there =
        (_, ap (logged_after actor none sinks.log) (submit_delivers heard sinks.mailbox there))
    dispatch_delivers (actuation_response heard s n) sinks there = (
      _,
      ap (logged_after actor (format_front_headlamp_ingress s n heard) sinks.log)
          (submit_delivers heard sinks.mailbox there),
    )

    run_delivers :
        (es : List CanIngressEnvelope) (sinks : Sinks actor)
        → All (λ e. Projects (content e)) es
        → ((run_dispatch_loop actor es sinks).0 ≡ channel_closed)
          × ((run_dispatch_loop actor es sinks).1.mailbox ≡ queue_all es sinks.mailbox)
    unfolding run_dispatch_loop
    run_delivers [] sinks there = (refl, refl)
    run_delivers (e ∷ es) sinks (there, rest) =
        let (log, delivered) = dispatch_delivers e sinks there in
        rw (run_dispatch_loop, delivered)
          (run_delivers es
            (record { mailbox = queued (project (content e)) sinks.mailbox; log = log }) rest)

    -- While the twin's mailbox takes what it is sent, the gateway's dispatch loop goes on until the
    -- reader exits, whatever frames the reader reads, whatever commands are published between them
    -- and however full the log is, and the twin is sent the event of each envelope, in order.
    pub gateway_delivers :
        (bus : CanBus) (policy : FrontHeadlampPolicy) (turns : List (Turn bus))
        (sinks : Sinks actor)
        → let es = read_all bus policy turns in
          let done = run_dispatch_loop actor es sinks in
          (done.0 ≡ channel_closed) × (done.1.mailbox ≡ queue_all es sinks.mailbox)
    gateway_delivers bus policy turns sinks =
        run_delivers (read_all bus policy turns) sinks (read_all-Projects bus policy turns)
