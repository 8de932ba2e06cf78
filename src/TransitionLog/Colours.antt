-- ===== src/TransitionLog/Colours.antt =====
-- Colours add nothing to a line and do not run out of it: crates/gateway/src/transition_log.rs.
use sdv_simulation.Prelude.{◌≡◌, refl, Bool, true, false, List, [], ◌∷◌}
use sdv_simulation.Published.Record.{PublishedTransitionRecord}
use sdv_simulation.TransitionLog.{
  Ansi, Piece, code, reset, format_transition_record, format_state_transition, format_next_state,
}

-- The line without its codes.
abbrev pub plain : List Piece → List Piece
plain [] = []
plain (code _ ∷ ps) = plain ps
plain (p ∷ ps) = p ∷ plain ps

abbrev is_colour : Ansi → Bool
is_colour reset = false
is_colour _ = true

-- Whether the terminal is left with a colour, from whether it had one.
abbrev pub coloured : Bool → List Piece → Bool
coloured on [] = on
coloured on (code c ∷ ps) = coloured (is_colour c) ps
coloured on (_ ∷ ps) = coloured on ps

-- Without its codes the coloured line of a record is its plain line, which has none; and it leaves
-- the terminal without a colour.
format_transition_record-plain :
    (r : PublishedTransitionRecord) (on : Bool)
    → (plain (format_transition_record r true) ≡ format_transition_record r false)
      × (plain (format_transition_record r false) ≡ format_transition_record r false)
      × (coloured on (format_transition_record r true) ≡ false)
unfolding format_transition_record format_state_transition format_next_state
format_transition_record-plain r on = (refl, refl, refl)
