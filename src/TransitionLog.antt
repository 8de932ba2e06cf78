-- ===== src/TransitionLog.antt =====
-- The ledger on stdout: crates/gateway/src/transition_log.rs. A line is the list of its pieces:
-- the ANSI codes, the fields of the record in their printed form, and the text between them.
pub mod Colours
use sdv_simulation.Prelude.{
  ℕ, String, Bool, true, false, List, [], ◌∷◌, ◌++◌, is_empty, if◌then◌else◌,
}
use sdv_simulation.Published.Record.{PublishedTransitionRecord}
use sdv_simulation.Published.Types.{
  PublishedFsmEvent, PublishedFsmState, PublishedDomainAction, PublishedHeadlampState,
}

pub data Ansi : Type 0 where
  reset bold dim cyan yellow bright_yellow green magenta : Ansi

pub data Piece : Type 0 where
  code : Ansi → Piece
  text : String → Piece
  -- "seq={:<4}"
  sequence : ℕ → Piece
  event : PublishedFsmEvent → Piece
  state : PublishedFsmState → Piece
  -- "actions={:?}", and "actions=[]" on none
  actions : List PublishedDomainAction → Piece
  -- "headlamp={:?}"
  headlamp : PublishedHeadlampState → Piece

unfoldable pub event_color : PublishedFsmEvent → Ansi
event_color (PublishedFsmEvent.internal _) = magenta
event_color PublishedFsmEvent.timer_tick = dim
event_color (PublishedFsmEvent.front_headlamp_actuation_incomplete _ _) = yellow
event_color _ = cyan

unfoldable pub next_state_color : PublishedFsmState → Ansi
next_state_color PublishedFsmState.off = dim
next_state_color PublishedFsmState.preparing_to_start = cyan
next_state_color PublishedFsmState.preparing_to_stop = cyan
next_state_color PublishedFsmState.idle = yellow
next_state_color PublishedFsmState.driving = green
next_state_color PublishedFsmState.driving_dangerously = magenta
next_state_color (PublishedFsmState.extreme_operation_warning _) = bright_yellow

unfoldable pub format_next_state : PublishedFsmState → List Piece
format_next_state s = code (next_state_color s) ∷ code bold ∷ state s ∷ code reset ∷ []

unfoldable pub format_state_transition : PublishedFsmState → PublishedFsmState → Bool → List Piece
format_state_transition old next false = state old ∷ text " → " ∷ state next ∷ []
format_state_transition old next true =
    code dim
    ∷ state old
    ∷ code reset
    ∷ code dim
    ∷ text " → "
    ∷ code reset
    ∷ (format_next_state next ++ (code reset ∷ []))

abbrev action_color : List PublishedDomainAction → Ansi
action_color done = if is_empty done then dim else magenta

abbrev gap : Piece
gap = text "  "

unfoldable pub format_transition_record : PublishedTransitionRecord → Bool → List Piece
format_transition_record r false =
    sequence r.record_seq
    ∷ gap
    ∷ event r.event
    ∷ gap
    ∷ (format_state_transition r.old_state r.next_state false
        ++ (gap ∷ actions r.actions ∷ gap ∷ headlamp r.current_ctx.headlamp.state ∷ []))
format_transition_record r true =
    code dim
    ∷ sequence r.record_seq
    ∷ code reset
    ∷ gap
    ∷ code (event_color r.event)
    ∷ event r.event
    ∷ code reset
    ∷ gap
    ∷ (format_state_transition r.old_state r.next_state true
        ++ (gap
            ∷ code (action_color r.actions)
            ∷ actions r.actions
            ∷ code reset
            ∷ gap
            ∷ code dim
            ∷ headlamp r.current_ctx.headlamp.state
            ∷ code reset
            ∷ []))
