-- ===== src/Actuation.antt =====
-- Outbound actuation: crates/common/src/twin_runtime/controller/actuation_contract.rs and
-- actuation_manager.rs. The channel is the runtime's; `execute` gives the commands it sends, and
-- ignores, as the code does, what becomes of them there.
pub mod Numbers
use sdv_simulation.Prelude.{ℕ, ◌+◌, ◌%◌, ◌^◌, Bool, true, false, List, [], ◌∷◌, Option, none, some}
use sdv_simulation.Prelude.Result.{Result, ok}
use sdv_simulation.Fsm.Machineries.{DomainAction}
use sdv_simulation.Twin.Identity.{Text}

pub record CorrelationId : Type 0 where
  pub source_id : Text
  pub session_id : ℕ
  pub sequence_no : ℕ

pub data ActuationCommand : Type 0 where
  switch_front_headlamp_on switch_front_headlamp_off : CorrelationId → ActuationCommand
  start_wiper stop_wiper : ActuationCommand

pub data ActuationError : Type 0 where
  unsupported_action : ActuationError

-- `actuation_command_tx` is kept as whether there is one.
pub record DefaultActuationManager : Type 0 where
  pub source_id : Option Text
  pub session_id : ℕ
  pub next_sequence_no : ℕ
  pub has_channel : Bool

abbrev pub with_command_channel : Text → ℕ → DefaultActuationManager
with_command_channel source_id session_id = record {
  source_id = some source_id;
  session_id = session_id;
  next_sequence_no = 1;
  has_channel = true;
}

abbrev pub default : DefaultActuationManager
default = record { source_id = none; session_id = 0; next_sequence_no = 1; has_channel = false }

-- `fetch_add` wraps around at 64 bits.
unfoldable pub next_correlation_id :
    DefaultActuationManager → Option CorrelationId × DefaultActuationManager
next_correlation_id m = elim m.source_id [
  | none ↦ (none, m)
  | some source_id ↦ (
    some (record {
      source_id = source_id;
      session_id = m.session_id;
      sequence_no = m.next_sequence_no;
    }),
    record m { next_sequence_no = (m.next_sequence_no + 1) % 2 ^ 64 },
  )
]

pub record Execution : Type 0 where
  pub manager : DefaultActuationManager
  pub commands : List ActuationCommand
  pub result : Result ActuationError (Unit {0})

abbrev pub executed : DefaultActuationManager → List ActuationCommand → Execution
executed m commands = record { manager = m; commands = commands; result = ok tt }

-- `if let (Some(tx), Some(id)) = (tx, next_correlation_id())`: the id is taken in either case.
abbrev pub correlated :
    (CorrelationId → ActuationCommand)
    → DefaultActuationManager
    → Option CorrelationId × DefaultActuationManager
    → Execution
correlated command m (none, m') = executed m' []
correlated command m (some id, m') = elim m.has_channel [
  | true ↦ executed m' (command id ∷ [])
  | false ↦ executed m' []
]

abbrev pub uncorrelated : ActuationCommand → DefaultActuationManager → Execution
uncorrelated command m = elim m.has_channel [
  | true ↦ executed m (command ∷ [])
  | false ↦ executed m []
]

unfoldable pub execute : DomainAction → DefaultActuationManager → Execution
unfolding next_correlation_id
execute DomainAction.request_front_headlamp_on m =
    correlated switch_front_headlamp_on m (next_correlation_id m)
execute DomainAction.request_front_headlamp_off m =
    correlated switch_front_headlamp_off m (next_correlation_id m)
execute DomainAction.request_wiper_start m = uncorrelated start_wiper m
execute DomainAction.request_wiper_stop m = uncorrelated stop_wiper m
execute _ m = executed m []
