-- ===== src/Examples/Edges.antt =====
-- The twinlets at concrete inputs.
use sdv_simulation.Prelude.{true, false, [], ◌∷◌, none, some, ◌≡◌, refl}
use sdv_simulation.Logs.{
  FrontHeadlampSwitchDirection, FrontHeadlampIncompleteCause, alert_incomplete,
}
use sdv_simulation.Zones.Headlamp.{HeadlampState, HeadlampMessage, HeadlampOutcome}
use sdv_simulation.Twinlet.{HeadlampActorState, handle_apply, handle_ack_wait_elapsed}
use sdv_simulation.Twinlet.Timer.{ack_wait, time_out, unanswered_request_reverts}
use sdv_simulation.Examples.{lamp}

abbrev twinlet : HeadlampActorState
twinlet = record {
  ctx = lamp HeadlampState.ready none;
  silent = false;
  knows_brain = true;
  ack_timer = none;
}

unanswered_request_reverts_example :
    let asked = (handle_apply (HeadlampMessage.ambient_lux 100) 5 3 0 twinlet).0 in
    let told = handle_ack_wait_elapsed FrontHeadlampSwitchDirection.on 2000000005 asked in
    let before = lamp HeadlampState.ready none in
    (asked.ctx ≡ lamp HeadlampState.on_requested (some 5))
    × (asked.ack_timer
        ≡ some (record {
          direction = FrontHeadlampSwitchDirection.on;
          wait = ack_wait FrontHeadlampSwitchDirection.on;
        }))
    × (told.0.ctx ≡ before)
    × (told.0.ack_timer ≡ none)
    × (told.1
        ≡ some (
            time_out FrontHeadlampSwitchDirection.on before (
              HeadlampOutcome.log_warning (
                alert_incomplete FrontHeadlampSwitchDirection.on
                  FrontHeadlampIncompleteCause.timed_out)
              ∷ [])))
unanswered_request_reverts_example =
    unanswered_request_reverts FrontHeadlampSwitchDirection.on 100 3 0 5 2000000005 twinlet refl
      refl refl
