-- ===== src/Actuators/Drops.antt =====
-- What the log queue of an actuator program makes of a long run of lines: `log_line` of
-- crates/front_headlamp_actuator/src/main.rs and crates/wiper_actuator/src/main.rs.
use sdv_simulation.Prelude.{
  ℕ, suc, ◌+◌, ◌<◌, ◌≤◌, ◌≡◌, refl, ap, true, List, [], ◌∷◌, ◌++◌, length, length-append, ltb,
  arith, ◌⊎◌, inl, inr, Bool-cases,
}
use sdv_simulation.Actuators.LogQueue.{
  LogQueue, Entry, line, dropped_notice, try_send, log_line, drain, head_of, rest_of, sent, full,
  Sent, logged, full, Sent, logged,
}

-- How many of the offered lines an entry stands for: itself, or those that its notice reports.
abbrev weight : Entry → ℕ
weight line = 1
weight (dropped_notice n) = n

abbrev pub account : List Entry → ℕ
account [] = 0
account (e ∷ es) = weight e + account es

account-append : (xs ys : List Entry) → account (xs ++ ys) ≡ account xs + account ys
account-append [] ys = omega arith
account-append (x ∷ xs) ys = omega (arith, account-append xs ys)

-- The program logs a line, or the drainer takes an entry.
pub data Step : Type 0 where
  log drain_one : Step

-- The queue, and what the drainer printed.
pub record Logging : Type 0 where
  pub queue : LogQueue
  pub printed : List Entry

abbrev pub fresh : ℕ → Logging
fresh capacity = record {
  queue = record { capacity = capacity; entries = []; dropped = 0; connected = true };
  printed = [];
}

abbrev pub step : Step → Logging → Logging
unfolding log_line drain
step log l = record l { queue = log_line l.queue }
step drain_one l = record { queue = drain l.queue; printed = l.printed ++ head_of l.queue.entries }

abbrev pub run : List Step → Logging → Logging
run [] l = l
run (s ∷ ss) l = run ss (step s l)

abbrev pub offered : List Step → ℕ
offered [] = 0
offered (log ∷ ss) = suc (offered ss)
offered (drain_one ∷ ss) = offered ss

pub record Keeps (before after : LogQueue) (printed : ℕ) (more : ℕ) : Type 0 where
  pub still_connected : after.connected ≡ true
  pub same_capacity : after.capacity ≡ before.capacity
  pub within : length after.entries ≤ after.capacity
  pub balance :
      printed + account after.entries + after.dropped
      ≡ account before.entries + before.dropped + more

abbrev appended : LogQueue → Entry → LogQueue
appended q e = record q { entries = q.entries ++ (e ∷ []) }

try_send_cases :
    (q : LogQueue) (e : Entry)
    → q.connected ≡ true
    → ((length q.entries < q.capacity) × (try_send q e ≡ (appended q e, sent)))
      ⊎ (try_send q e ≡ (q, full))
unfolding try_send
try_send_cases q e c = elim (Bool-cases (ltb (length q.entries) q.capacity)) [
  | inl room ↦ inl (ground arith, rw (c, room) refl)
  | inr no_room ↦ inr (rw (c, no_room) refl)
]

log_line_on : (q : LogQueue) (r : LogQueue × Sent) → try_send q line ≡ r → log_line q ≡ logged r
unfolding log_line
log_line_on q r e = ap logged e

Keeps-full :
    (q : LogQueue)
    → q.connected ≡ true
    → length q.entries ≤ q.capacity
    → q.dropped + 1 < 18446744073709551616
    → Keeps q (logged (q, full)) 0 1
unfolding logged
Keeps-full q c w d = record {
  still_connected = c;
  same_capacity = refl;
  within = w;
  balance = omega arith;
}

-- The line went into the queue; the notice after it goes in too, or finds the queue full.
Keeps-line :
    (q : LogQueue)
    → q.connected ≡ true
    → length q.entries < q.capacity
    → Keeps q (appended q line) 0 1
Keeps-line q c room = record {
  still_connected = c;
  same_capacity = refl;
  within = omega (arith, length-append q.entries (line ∷ []));
  balance = omega (arith, account-append q.entries (line ∷ []));
}

Keeps-notice :
    (q r : LogQueue)
    → Keeps q r 0 1
    → length r.entries < r.capacity
    → Keeps q (record (appended r (dropped_notice r.dropped)) { dropped = 0 }) 0 1
Keeps-notice q r k room = record {
  still_connected = k.still_connected;
  same_capacity = k.same_capacity;
  within = omega (arith, length-append r.entries (dropped_notice r.dropped ∷ []));
  balance = omega (arith, k.balance, account-append r.entries (dropped_notice r.dropped ∷ []));
}

Keeps-sent : (q r : LogQueue) → Keeps q r 0 1 → Keeps q (logged (r, sent)) 0 1
unfolding logged
Keeps-sent q r k = elim (Bool-cases (ltb 0 r.dropped)) [
  | inl some_dropped ↦ elim (try_send_cases r (dropped_notice r.dropped) k.still_connected) [
    | inl (room, e) ↦ rw (some_dropped, e) (Keeps-notice q r k room)
    | inr e ↦ rw (some_dropped, e) k
  ]
  | inr none_dropped ↦ rw none_dropped k
]

log_line-Keeps :
    (q : LogQueue)
    → q.connected ≡ true
    → length q.entries ≤ q.capacity
    → q.dropped + 1 < 18446744073709551616
    → Keeps q (log_line q) 0 1
log_line-Keeps q c w d = elim (try_send_cases q line c) [
  | inl (room, e) ↦ rw (log_line_on q _ e) (Keeps-sent q (appended q line) (Keeps-line q c room))
  | inr e ↦ rw (log_line_on q _ e) (Keeps-full q c w d)
]

length-rest_of : (es : List Entry) → length (rest_of es) ≤ length es
length-rest_of [] = omega arith
length-rest_of (e ∷ es) = omega arith

account-head_of : (es : List Entry) → account (head_of es) + account (rest_of es) ≡ account es
account-head_of [] = refl
account-head_of (e ∷ es) = omega arith

drain-Keeps :
    (q : LogQueue)
    → q.connected ≡ true
    → length q.entries ≤ q.capacity
    → Keeps q (drain q) (account (head_of q.entries)) 0
unfolding drain
drain-Keeps q c w = record {
  still_connected = c;
  same_capacity = refl;
  within = omega (arith, length-rest_of q.entries);
  balance = omega (arith, account-head_of q.entries);
}

-- The queue is within its capacity, and each of the `n` offered lines is printed, queued or in the
-- count of dropped ones, or was in a count that is printed or queued.
pub record IsAccounted (n : ℕ) (l : Logging) : Type 0 where
  pub connected : l.queue.connected ≡ true
  pub within : length l.queue.entries ≤ l.queue.capacity
  pub balance : account l.printed + account l.queue.entries + l.queue.dropped ≡ n

step-IsAccounted :
    (s : Step) (n : ℕ) (l : Logging)
    → IsAccounted n l
    → n + offered (s ∷ []) < 18446744073709551616
    → IsAccounted (n + offered (s ∷ [])) (step s l)
unfolding step
step-IsAccounted log n l a small =
    let k = log_line-Keeps l.queue a.connected a.within (omega (arith, a.balance)) in
    record {
      connected = k.still_connected;
      within = k.within;
      balance = omega (arith, a.balance, k.balance);
    }
step-IsAccounted drain_one n l a small =
    let k = drain-Keeps l.queue a.connected a.within in
    record {
      connected = k.still_connected;
      within = k.within;
      balance =
          omega (arith, a.balance, k.balance, account-append l.printed (head_of l.queue.entries));
    }

run-IsAccounted :
    (ss : List Step) (n m : ℕ) (l : Logging)
    → IsAccounted n l
    → m < 18446744073709551616
    → n + offered ss ≡ m
    → IsAccounted m (run ss l)
run-IsAccounted [] n m l a small e = record {
  connected = a.connected;
  within = a.within;
  balance = omega (arith, a.balance, e);
}
run-IsAccounted (log ∷ ss) n m l a small e =
    run-IsAccounted ss (n + 1) m (step log l) (step-IsAccounted log n l a (omega (arith, e))) small
      (omega (arith, e))
run-IsAccounted (drain_one ∷ ss) n m l a small e =
    run-IsAccounted ss (n + 0) m (step drain_one l)
      (step-IsAccounted drain_one n l a (omega (arith, e))) small (omega (arith, e))

-- However logging and draining interleave, from an empty queue of any capacity and over fewer than
-- 2^64 lines, the queue stays within its capacity, and every line is printed, queued, or counted
-- in a notice or in the count of dropped lines.
pub fresh-IsAccounted :
    (ss : List Step) (capacity : ℕ)
    → offered ss < 18446744073709551616
    → IsAccounted (offered ss) (run ss (fresh capacity))
fresh-IsAccounted ss capacity small =
    run-IsAccounted ss 0 (offered ss) (fresh capacity)
      (record { connected = refl; within = omega arith; balance = omega arith }) small (omega arith)
