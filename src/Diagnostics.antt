-- ===== src/Diagnostics.antt =====
-- Diagnostic messages: crates/common/src/diagnostic/mod.rs. A message made by `format!` is kept as
-- the template's constructor with its arguments. The sink is a channel; `try_emit` says whether
-- its other end is open.
pub mod Truth
use sdv_simulation.Prelude.{ℕ, String, Bool, true, false, List, [], ◌∷◌, ◌++◌, if◌then◌else◌}
use sdv_simulation.Prelude.Result.{Result, ok, err}
use sdv_simulation.Physics.{speed_threshold_exceeded, extreme_operation_active}
use sdv_simulation.Modes.{FsmState}
use sdv_simulation.Logs.{LogText, FrontHeadlampSwitchDirection, Icon}
use sdv_simulation.Twin.Identity.{Text}
use sdv_simulation.Zones.{VehicleContext}
use sdv_simulation.Zones.Powertrain.{primary_rpm}
use sdv_simulation.Fsm.Machineries.{DomainAction}
use sdv_simulation.Actuation.{ActuationError}
use sdv_simulation.Brain.{Diagnostic}

pub data DiagnosticLevel : Type 0 where
  info action alert warning error : DiagnosticLevel

-- What a transition line says behind the mode.
pub data Detail : Type 0 where
  nothing : Detail
  -- ", speed = {} km/h, RPM = {}" and what stands behind it
  speed_rpm : ℕ → ℕ → Detail
  over_limit within_limit lighting_unsafe both_extreme speed_over_limit : ℕ → ℕ → Detail

pub data Label : Type 0 where
  off idle driving driving_dangerously extreme_operation_warning : Label
  preparing_to_start preparing_to_stop : Label

-- The message behind "[{identity}]: ".
pub data Body : Type 0 where
  transitioned : Label → Detail → Body
  heartbeat : Body
  actuation_failed : DomainAction → ActuationError → Body
  warned : LogText → Body
  confirmed : Icon → String → Body
  sink_full sink_closed : Body

pub record DiagnosticMessage : Type 0 where
  pub level : DiagnosticLevel
  pub source : String
  pub identity : Text
  pub body : Body
  pub timestamp_utc_nanos : ℕ

-- `new`, at the time that the clock reads, from the actor, which is the only source.
abbrev pub new : ℕ → DiagnosticLevel → Text → Body → DiagnosticMessage
new now level identity body = record {
  level = level;
  source = "VirtualCarActor";
  identity = identity;
  body = body;
  timestamp_utc_nanos = now;
}

unfoldable pub detail_of : FsmState → VehicleContext → Detail
detail_of FsmState.off ctx = nothing
detail_of FsmState.idle ctx = speed_rpm ctx.powertrain.speed_kph (primary_rpm ctx.powertrain)
detail_of FsmState.driving ctx =
    if speed_threshold_exceeded ctx.powertrain.speed_kph
    then over_limit ctx.powertrain.speed_kph (primary_rpm ctx.powertrain)
    else within_limit ctx.powertrain.speed_kph (primary_rpm ctx.powertrain)
detail_of FsmState.driving_dangerously ctx =
    lighting_unsafe ctx.powertrain.speed_kph (primary_rpm ctx.powertrain)
detail_of (FsmState.extreme_operation_warning _) ctx =
    if extreme_operation_active (primary_rpm ctx.powertrain) ctx.powertrain.speed_kph
    then both_extreme ctx.powertrain.speed_kph (primary_rpm ctx.powertrain)
    else speed_over_limit ctx.powertrain.speed_kph (primary_rpm ctx.powertrain)
detail_of (FsmState.preparing_to_start _) ctx = nothing
detail_of (FsmState.preparing_to_stop _) ctx = nothing

abbrev label_of : FsmState → Label
label_of FsmState.off = off
label_of FsmState.idle = idle
label_of FsmState.driving = driving
label_of FsmState.driving_dangerously = driving_dangerously
label_of (FsmState.extreme_operation_warning _) = extreme_operation_warning
label_of (FsmState.preparing_to_start _) = preparing_to_start
label_of (FsmState.preparing_to_stop _) = preparing_to_stop

module _ (now : ℕ) (identity : Text) where
  unfoldable pub diag_state_transition : FsmState → VehicleContext → DiagnosticMessage
  diag_state_transition new_state ctx =
      new now DiagnosticLevel.info identity
        (transitioned (label_of new_state) (detail_of new_state ctx))

  unfoldable pub diag_timer_tick : DiagnosticMessage
  diag_timer_tick = new now DiagnosticLevel.info identity heartbeat

  unfoldable pub diag_actuation_failure : DomainAction → ActuationError → DiagnosticMessage
  diag_actuation_failure failed e =
      new now DiagnosticLevel.error identity (actuation_failed failed e)

  unfoldable pub diag_warning : LogText → DiagnosticMessage
  diag_warning message = new now DiagnosticLevel.warning identity (warned message)

  unfoldable pub diag_front_headlamp_confirmed : FrontHeadlampSwitchDirection → DiagnosticMessage
  diag_front_headlamp_confirmed FrontHeadlampSwitchDirection.on =
      new now DiagnosticLevel.info identity (confirmed Icon.ack_on "Front headlamp ON confirmed.")
  diag_front_headlamp_confirmed FrontHeadlampSwitchDirection.off =
      new now DiagnosticLevel.info identity (confirmed Icon.ack_off "Front headlamp OFF confirmed.")

  unfoldable pub diag_transition_sink_full : DiagnosticMessage
  diag_transition_sink_full = new now DiagnosticLevel.warning identity sink_full

  unfoldable pub diag_transition_sink_closed : DiagnosticMessage
  diag_transition_sink_closed = new now DiagnosticLevel.warning identity sink_closed

  -- The constructor that the actor calls at each of its diagnostics.
  unfoldable pub message_of : Diagnostic → DiagnosticMessage
  message_of Diagnostic.timer_tick = diag_timer_tick
  message_of (Diagnostic.warning message) = diag_warning message
  message_of (Diagnostic.actuation_failure failed e) = diag_actuation_failure failed e
  message_of (Diagnostic.state_transition state ctx) = diag_state_transition state ctx
  message_of (Diagnostic.front_headlamp_confirmed direction) =
      diag_front_headlamp_confirmed direction
  message_of Diagnostic.transition_sink_full = diag_transition_sink_full
  message_of Diagnostic.transition_sink_closed = diag_transition_sink_closed

pub data Icons : Type 0 where
  information lightning siren warning_sign cross : Icons

-- The icon that `Display` puts in front.
unfoldable pub icon : DiagnosticLevel → Icons
icon DiagnosticLevel.info = information
icon DiagnosticLevel.action = lightning
icon DiagnosticLevel.alert = siren
icon DiagnosticLevel.warning = warning_sign
icon DiagnosticLevel.error = cross

pub data DiagnosticSinkError : Type 0 where
  full closed : DiagnosticSinkError

-- `TokioMpscDiagnosticSink::try_emit`: the channel has no bound.
unfoldable pub try_emit :
    Bool
    → DiagnosticMessage
    → List DiagnosticMessage
    → Result DiagnosticSinkError (List DiagnosticMessage)
try_emit is_open message channel = if is_open then ok (channel ++ (message ∷ [])) else err closed

-- What the observer has printed.
pub record Printed : Type 0 where
  pub stdout : List DiagnosticMessage
  pub stderr : List DiagnosticMessage

abbrev to_stderr : DiagnosticLevel → Bool
to_stderr DiagnosticLevel.error = true
to_stderr DiagnosticLevel.alert = true
to_stderr _ = false

unfoldable pub observe : DiagnosticMessage → Printed → Printed
observe message p =
    if to_stderr message.level
    then record p { stderr = p.stderr ++ (message ∷ []) }
    else record p { stdout = p.stdout ++ (message ∷ []) }
