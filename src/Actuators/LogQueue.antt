-- ===== src/Actuators/LogQueue.antt =====
-- `log_line` of both actuator programs: a bounded queue of lines that a thread drains, and the
-- count of the lines dropped since the last notice. A line is its number among the lines offered.
use sdv_simulation.Prelude.{ℕ, ◌+◌, ◌%◌, ◌^◌, Bool, List, [], ◌∷◌, ◌++◌, length, ltb, if◌then◌else◌}

pub data Entry : Type 0 where
  line : Entry
  -- "dropped {dropped} log line(s) under console back-pressure"
  dropped_notice : ℕ → Entry

pub record LogQueue : Type 0 where
  pub capacity : ℕ
  pub entries : List Entry
  pub dropped : ℕ
  pub connected : Bool

pub data Sent : Type 0 where
  sent full disconnected : Sent

-- `SyncSender::try_send` on what the queue holds.
unfoldable pub try_send : LogQueue → Entry → LogQueue × Sent
try_send q e =
    if q.connected
    then if ltb (length q.entries) q.capacity
      then (record q { entries = q.entries ++ (e ∷ []) }, sent)
      else (q, full)
    else (q, disconnected)

abbrev reset_if : LogQueue × Sent → LogQueue
reset_if (q, sent) = record q { dropped = 0 }
reset_if (q, full) = q
reset_if (q, disconnected) = q

unfoldable pub logged : LogQueue × Sent → LogQueue
logged (q, sent) = if ltb 0 q.dropped then reset_if (try_send q (dropped_notice q.dropped)) else q
logged (q, full) = record q { dropped = (q.dropped + 1) % 2 ^ 64 }
logged (q, disconnected) = q

unfoldable pub log_line : LogQueue → LogQueue
unfolding logged
log_line q = logged (try_send q line)

-- The drainer thread takes the oldest entry and prints it.
abbrev pub rest_of : List Entry → List Entry
rest_of [] = []
rest_of (_ ∷ es) = es

abbrev pub head_of : List Entry → List Entry
head_of [] = []
head_of (e ∷ _) = e ∷ []

unfoldable pub drain : LogQueue → LogQueue
drain q = record q { entries = rest_of q.entries }
