-- ===== src/Actuation/Numbers.antt =====
-- The numbers of the commands that one manager sends: `next_correlation_id` and `execute` of
-- crates/common/src/twin_runtime/controller/actuation_manager.rs, as the wire of
-- crates/vehicle_device_bus cuts them.
use sdv_simulation.Prelude.{
  ℕ, suc, ◌+◌, ◌%◌, ◌<◌, ◌≤◌, ◌≡◌, ◌≢◌, ◌⊎◌, inl, inr, refl, Option, none, some, List, [], ◌∷◌,
  ◌++◌, All, length, arith, Option-cases, Bool-cases,
}
use sdv_simulation.Prelude.Word.{as_u32}
use sdv_simulation.Fsm.Machineries.{DomainAction}
use sdv_simulation.Actuation.{
  CorrelationId, ActuationCommand, switch_front_headlamp_on, switch_front_headlamp_off, start_wiper,
  stop_wiper, DefaultActuationManager, Execution, next_correlation_id, execute, correlated,
  uncorrelated,
}

-- The manager executes the actions in turn; these are the commands that it sends.
abbrev pub run : List DomainAction → DefaultActuationManager → List ActuationCommand
unfolding execute
run [] m = []
run (a ∷ more) m = (execute a m).commands ++ run more (execute a m).manager

-- Two headlamp commands have different numbers on the wire.
abbrev number : ActuationCommand → Option ℕ
number (switch_front_headlamp_on id) = some (as_u32 id.sequence_no)
number (switch_front_headlamp_off id) = some (as_u32 id.sequence_no)
number start_wiper = none
number stop_wiper = none

abbrev pub Apart : Option ℕ → Option ℕ → Type 0
Apart (some x) (some y) = x ≢ y
Apart (some x) none = Unit {0}
Apart none other = Unit {0}

abbrev pub Distinct : List ActuationCommand → Type 0
Distinct [] = Unit {0}
Distinct (c ∷ cs) = All (λ d. Apart (number c) (number d)) cs × Distinct cs

-- What an execution does: it takes no number and sends no numbered command, or takes the next
-- number and sends nothing or one command under it.
abbrev Takes : ℕ → Execution → Type 0
Takes n e =
    ((e.manager.next_sequence_no ≡ n)
      × ((e.commands ≡ []) ⊎ ((c : ActuationCommand) × (e.commands ≡ c ∷ []) × (number c ≡ none))))
    ⊎ ((e.manager.next_sequence_no ≡ (n + 1) % 18446744073709551616)
        × ((e.commands ≡ [])
            ⊎ ((c : ActuationCommand) × (e.commands ≡ c ∷ []) × (number c ≡ some (as_u32 n)))))

wiper-Takes :
    (c : ActuationCommand) (m : DefaultActuationManager)
    → number c ≡ none
    → Takes m.next_sequence_no (uncorrelated c m)
wiper-Takes c m plain = elim (Bool-cases m.has_channel) [
  | inl linked ↦ rw linked (inl (refl, inr (c, refl, plain)))
  | inr shut ↦ rw shut (inl (refl, inl refl))
]

headlamp-Takes :
    (command : CorrelationId → ActuationCommand) (m : DefaultActuationManager)
    → ((id : CorrelationId) → number (command id) ≡ some (as_u32 id.sequence_no))
    → Takes m.next_sequence_no (correlated command m (next_correlation_id m))
unfolding next_correlation_id
headlamp-Takes command m numbered = elim (Option-cases m.source_id) [
  | inl blank ↦ rw blank (inl (refl, inl refl))
  | inr (source, named) ↦ elim (Bool-cases m.has_channel) [
    | inl linked ↦ rw (named, linked) (inr (refl, inr (_, refl, numbered _)))
    | inr shut ↦ rw (named, shut) (inr (refl, inl refl))
  ]
]

execute-Takes :
    (a : DomainAction) (m : DefaultActuationManager) → Takes m.next_sequence_no (execute a m)
unfolding execute
execute-Takes DomainAction.request_front_headlamp_on m =
    headlamp-Takes switch_front_headlamp_on m (λ id. refl)
execute-Takes DomainAction.request_front_headlamp_off m =
    headlamp-Takes switch_front_headlamp_off m (λ id. refl)
execute-Takes DomainAction.request_wiper_start m = wiper-Takes start_wiper m refl
execute-Takes DomainAction.request_wiper_stop m = wiper-Takes stop_wiper m refl
execute-Takes _ m = inl (refl, inl refl)

-- The number is among those of the `k` from `n` on, as the wire cuts them.
abbrev InWindow : ℕ → ℕ → Option ℕ → Type 0
InWindow n k none = Unit {0}
InWindow n k (some x) = (i : ℕ) × (i < k) × (x ≡ as_u32 (n + i))

abbrev AllInWindow : ℕ → ℕ → List ActuationCommand → Type 0
AllInWindow n k = All (λ c. InWindow n k (number c))

same_window : (n k : ℕ) (o : Option ℕ) → InWindow n k o → InWindow n (suc k) o
same_window n k none w = tt
same_window n k (some x) (i, below, e) = (i, omega (arith, below), e)

next_window :
    (n k : ℕ) (o : Option ℕ) → InWindow ((n + 1) % 18446744073709551616) k o → InWindow n (suc k) o
next_window n k none w = tt
next_window n k (some x) (i, below, e) = (i + 1, omega (arith, below), omega (arith, e))

All_window :
    (n m k : ℕ) (cs : List ActuationCommand)
    → ((o : Option ℕ) → InWindow m k o → InWindow n (suc k) o)
    → AllInWindow m k cs
    → AllInWindow n (suc k) cs
All_window n m k [] widen w = tt
All_window n m k (c ∷ cs) widen (w, ws) = (widen (number c) w, All_window n m k cs widen ws)

-- The commands of one execution, as far as a window is concerned, in front of later ones.
one-InWindow :
    (n k : ℕ) (front rest : List ActuationCommand)
    → (front ≡ []) ⊎ ((c : ActuationCommand) × (front ≡ c ∷ []) × InWindow n k (number c))
    → AllInWindow n k rest
    → AllInWindow n k (front ++ rest)
one-InWindow n k front rest (inl e) ws = rw e ws
one-InWindow n k front rest (inr (c, e, w)) ws = rw e (w, ws)

start-InWindow :
    (n k : ℕ) (o : Option ℕ) → (o ≡ none) ⊎ (o ≡ some (as_u32 n)) → InWindow n (suc k) o
start-InWindow n k none h = tt
start-InWindow n k (some x) (inl e) = cc
start-InWindow n k (some x) (inr e) =
    let same : x ≡ as_u32 n = cc in (0, omega arith, omega (arith, same))

taken-InWindow :
    (n k : ℕ) (front : List ActuationCommand) (o : Option ℕ)
    → (o ≡ none) ⊎ (o ≡ some (as_u32 n))
    → (front ≡ []) ⊎ ((c : ActuationCommand) × (front ≡ c ∷ []) × (number c ≡ o))
    → (front ≡ []) ⊎ ((c : ActuationCommand) × (front ≡ c ∷ []) × InWindow n (suc k) (number c))
taken-InWindow n k front o which (inl e) = inl e
taken-InWindow n k front o which (inr (c, e, numbered)) =
    inr (c, e, rw numbered (start-InWindow n k o which))

run_windows :
    (actions : List DomainAction) (m : DefaultActuationManager)
    → AllInWindow m.next_sequence_no (length actions) (run actions m)
unfolding run
run_windows [] m = tt
run_windows (a ∷ more) m =
    let n = m.next_sequence_no in
    let later = run_windows more (execute a m).manager in
    elim (execute-Takes a m) [
      | inl (same, sends) ↦
          one-InWindow n (suc (length more)) _ _
            (taken-InWindow n (length more) _ none (inl refl) sends)
            (All_window n n (length more) _ (same_window n (length more)) (rw same at later))
      | inr (next, sends) ↦
          one-InWindow n (suc (length more)) _ _
            (taken-InWindow n (length more) _ (some (as_u32 n)) (inr refl) sends)
            (All_window n ((n + 1) % 18446744073709551616) (length more) _
              (next_window n (length more)) (rw next at later))
    ]

plain-Apart :
    (c : ActuationCommand) (cs : List ActuationCommand)
    → number c ≡ none
    → All (λ d. Apart (number c) (number d)) cs
plain-Apart c [] plain = tt
plain-Apart c (d ∷ ds) plain = (rw plain tt, plain-Apart c ds plain)

window-Apart :
    (n k : ℕ) (o : Option ℕ)
    → InWindow ((n + 1) % 18446744073709551616) k o
    → k < 4294967296
    → Apart (some (as_u32 n)) o
window-Apart n k none w small = tt
window-Apart n k (some x) (i, below, e) small = λ same. omega (arith, below, e, same)

numbered-Apart :
    (n k : ℕ) (c : ActuationCommand) (cs : List ActuationCommand)
    → number c ≡ some (as_u32 n)
    → AllInWindow ((n + 1) % 18446744073709551616) k cs
    → k < 4294967296
    → All (λ d. Apart (number c) (number d)) cs
numbered-Apart n k c [] numbered w small = tt
numbered-Apart n k c (d ∷ ds) numbered (w, ws) small =
    (rw numbered (window-Apart n k (number d) w small), numbered-Apart n k c ds numbered ws small)

-- No two headlamp commands among those of up to 2^32 actions have the same number on the
-- wire, whatever the actions are and wherever the counter stands.
pub run-Distinct :
    (actions : List DomainAction) (m : DefaultActuationManager)
    → length actions ≤ 4294967296
    → Distinct (run actions m)
unfolding run
run-Distinct [] m small = tt
run-Distinct (a ∷ more) m small =
    let m' = (execute a m).manager in
    let rest = run-Distinct more m' (omega (arith, small)) in
    elim (execute-Takes a m) [
      | inl (same, inl e) ↦ rw e rest
      | inl (same, inr (c, e, plain)) ↦ rw e (plain-Apart c (run more m') plain, rest)
      | inr (next, inl e) ↦ rw e rest
      | inr (next, inr (c, e, numbered)) ↦ rw e (
        numbered-Apart m.next_sequence_no (length more) c (run more m') numbered
            (rw next at (run_windows more m')) (omega (arith, small)),
        rest,
      )
    ]
