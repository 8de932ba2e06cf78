-- ===== src/Barrier/Retries.antt =====
-- The retry budget of crates/common/src/twin_runtime/turn_barrier.rs, against the pure decision of
-- zone_tell_back.rs and over a zone that never answers.
use sdv_simulation.Prelude.{
  ℕ, zero, suc, ◌+◌, ◌≤◌, ◌<◌, true, List, [], ◌∷◌, none, some, ◌≡◌, refl, ap, arith,
}
use sdv_simulation.Prelude.Word.{u32_max}
use sdv_simulation.Modes.{AssemblyId, assembly_eq}
use sdv_simulation.Zones.Headlamp.{HeadlampContext}
use sdv_simulation.Barrier.{TurnBarrier, TimeoutOutcome, retry, gave_up, act_on_zone_timeout}
use sdv_simulation.Barrier.Wait.{
  TellBackWait, TellBackTimeoutOutcome, exhausted, advance, on_tell_back_timeout,
  synthetic_unresponsive_headlamp_reply,
}
use sdv_simulation.Barrier.Wait

-- What the pure decision comes to for the barrier.
abbrev pub outcome_of : TellBackTimeoutOutcome → TimeoutOutcome
outcome_of (Wait.retry w) = retry w.tell_attempt
outcome_of (exhausted reply) = gave_up

abbrev pub wait_of : TellBackWait → TellBackTimeoutOutcome → TellBackWait
wait_of w (Wait.retry w') = w'
wait_of w (exhausted reply) = w

assembly_eq_refl : (a : AssemblyId) → assembly_eq a a ≡ true
assembly_eq_refl AssemblyId.headlamp = refl
assembly_eq_refl AssemblyId.wiper = refl

-- A timeout of the attempt that a barrier waits for is decided as `on_tell_back_timeout` decides
-- it, and the wait that is stored is the one it gives; the zone's timer is gone.
pub act_on_zone_timeout-on_tell_back_timeout :
    (ctx : HeadlampContext) (a : AssemblyId) (b : TurnBarrier) (w : TellBackWait)
    → b.zone_waits a ≡ some w
    → let after = act_on_zone_timeout a w.tell_attempt b in
      let decision = on_tell_back_timeout ctx w in
      (after.1 ≡ outcome_of decision)
      × (after.0.zone_waits a ≡ some (wait_of w decision))
      × (after.0.zone_timers a ≡ none)
unfolding act_on_zone_timeout on_tell_back_timeout
act_on_zone_timeout-on_tell_back_timeout ctx AssemblyId.headlamp b w waits = rw waits (ground arith)
act_on_zone_timeout-on_tell_back_timeout ctx AssemblyId.wiper b w waits = rw waits (ground arith)

-- What a barrier decides on the timeouts of a zone that never answers: each of the attempt it then
-- waits for, from attempt k on.
abbrev pub silent_outcomes : AssemblyId → ℕ → ℕ → TurnBarrier → List TimeoutOutcome
unfolding act_on_zone_timeout
silent_outcomes a zero k b = []
silent_outcomes a (suc n) k b =
    let after = act_on_zone_timeout a k b in after.1 ∷ silent_outcomes a n (suc k) after.0

-- The retries k + 1 up to k + n, then giving up.
abbrev pub n_retries : ℕ → ℕ → List TimeoutOutcome
n_retries zero k = gave_up ∷ []
n_retries (suc n) k = retry (suc k) ∷ n_retries n (suc k)

abbrev pub waiting_for : ℕ → ℕ → ℕ → TellBackWait
waiting_for turn_id k n = record { turn_id = turn_id; tell_attempt = k; retries_remaining = n }

retry_step :
    (a : AssemblyId) (b : TurnBarrier) (t k n : ℕ)
    → k < u32_max
    → b.zone_waits a ≡ some (waiting_for t k (suc n))
    → let after = act_on_zone_timeout a k b in
      (after.1 ≡ retry (suc k)) × (after.0.zone_waits a ≡ some (waiting_for t (suc k) n))
unfolding act_on_zone_timeout
retry_step AssemblyId.headlamp b t k n small waits = rw waits (ground arith)
retry_step AssemblyId.wiper b t k n small waits = rw waits (ground arith)

last_step :
    (a : AssemblyId) (b : TurnBarrier) (t k : ℕ)
    → b.zone_waits a ≡ some (waiting_for t k 0)
    → (act_on_zone_timeout a k b).1 ≡ gave_up
unfolding act_on_zone_timeout
last_step a b t k waits = rw waits (ground arith)

-- A zone with n retries left that never answers is told again exactly n times, each under the next
-- attempt number, and then given up; with the two retries of a fresh wait that is three timeouts.
pub silent_outcomes-n_retries :
    (a : AssemblyId) (n : ℕ) (b : TurnBarrier) (t k : ℕ)
    → k + n ≤ u32_max
    → b.zone_waits a ≡ some (waiting_for t k n)
    → silent_outcomes a (suc n) k b ≡ n_retries n k
unfolding silent_outcomes
silent_outcomes-n_retries a zero b t k small waits = ap (λ o. o ∷ []) (last_step a b t k waits)
silent_outcomes-n_retries a (suc n) b t k small waits =
    let (told, waits') = retry_step a b t k n (omega arith) waits in
    rw told (
      ap (◌∷◌ (retry (suc k))) (
        silent_outcomes-n_retries a n (act_on_zone_timeout a k b).0 t (suc k) (omega arith) waits'))
