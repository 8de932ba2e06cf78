-- ===== src/Together/Retry.antt =====
-- A zone that answers its first tell too late: the tell-back timeout, the second tell and the two
-- answers, at virtual_car_actor.rs, turn_barrier.rs and headlamp_actor.rs of
-- crates/common/src/twin_runtime. The queue is empty when the event comes.
use sdv_simulation.Prelude.{ℕ, true, false, [], ◌∷◌, some, ◌≡◌, refl, ap, ◌∙◌, subst}
use sdv_simulation.Modes.{AssemblyId}
use sdv_simulation.Fsm.Machineries.{FsmEvent}
use sdv_simulation.Twin.{ZoneMessage, ZoneReply, DigitalTwinCarVocabulary}
use sdv_simulation.Barrier.{
  TurnBarrier, TellBackTimer, TimeoutOutcome, retry, gave_up, act_on_zone_reply,
  act_on_zone_timeout, store_retry_timer, tell_attempt_matches,
}
use sdv_simulation.Barrier
use sdv_simulation.Barrier.Entry.{waiting}
use sdv_simulation.Brain.{
  Env, Brain, tell, arm, abort, did, behind, and_then, tell_zone, read_clock, tell_back_timer,
}
use sdv_simulation.Brain.Commit.{commit_resolved_turn}
use sdv_simulation.Brain.Handle.{
  find_waiting, put, replied, retold, decided, on_zone_ready, on_zone_timeout, drain,
  try_drain_barrier_queue, ingest, handle,
}
use sdv_simulation.Together.Head.{find_waiting-head, put_waiting-head}
use sdv_simulation.Together.Exchange.{
  opened, barrier_of, waiting_on, answered_turn, idle_brain, drain-zero,
}

abbrev pub second_timer : AssemblyId → Brain → TellBackTimer
second_timer a b = tell_back_timer a b.next_turn_id 1

-- The barrier after the timeout, told again.
pub retried : Env → FsmEvent → AssemblyId → ZoneMessage → Brain → TurnBarrier
unfolding act_on_zone_timeout
retried env e a m b =
    store_retry_timer a (second_timer a b) (act_on_zone_timeout a 0 (barrier_of env e a m b)).0

abbrev pub waiting_again : Env → FsmEvent → AssemblyId → ZoneMessage → Brain → Brain
waiting_again env e a m b = record (opened b) { barrier_queue = waiting (retried env e a m b) ∷ [] }

times_out :
    (env : Env) (e : FsmEvent) (a : AssemblyId) (m : ZoneMessage) (b : Brain)
    → (act_on_zone_timeout a 0 (barrier_of env e a m b)).1 ≡ retry 1
unfolding act_on_zone_timeout
times_out env e AssemblyId.headlamp m b = refl
times_out env e AssemblyId.wiper m b = refl

keeps_message :
    (env : Env) (e : FsmEvent) (a : AssemblyId) (m : ZoneMessage) (b : Brain)
    → Barrier.zone_message a (act_on_zone_timeout a 0 (barrier_of env e a m b)).0 ≡ some m
unfolding act_on_zone_timeout
keeps_message env e AssemblyId.headlamp m b = refl
keeps_message env e AssemblyId.wiper m b = refl

decided-retry :
    (env : Env) (t n : ℕ) (a : AssemblyId) (b : Brain) (d : TurnBarrier × TimeoutOutcome)
    → d.1 ≡ retry n
    → decided env t a b d ≡ retold env t a n d.0 (Barrier.zone_message a d.0) (put t d.0 b)
unfolding decided
decided-retry env t n a b (w, retry k) h = let same : k ≡ n = cc in rw same refl
decided-retry env t n a b (w, gave_up) h = cc

put-singleton :
    (w v : TurnBarrier) (b : Brain)
    → put w.turn_id v (record b { barrier_queue = waiting w ∷ [] })
      ≡ record b { barrier_queue = waiting v ∷ [] }
unfolding put
put-singleton w v b = ap (λ q. record b { barrier_queue = q }) (put_waiting-head w v [])

retold_puts :
    (env : Env) (e : FsmEvent) (a : AssemblyId) (m : ZoneMessage) (b : Brain)
    → env.zone_accepts m b.next_turn_id 1 ≡ true
    → let w = (act_on_zone_timeout a 0 (barrier_of env e a m b)).0 in
      retold env b.next_turn_id a 1 w (some m) (put b.next_turn_id w (waiting_on env e a m b))
      ≡ did
          (tell m b.next_turn_id 1 (read_clock env b) ∷ arm (second_timer a b) ∷ [])
          (waiting_again env e a m b)
unfolding retold tell_zone retried act_on_zone_timeout
retold_puts env e AssemblyId.headlamp m b there =
    let w = barrier_of env e AssemblyId.headlamp m b in
    let w' = (act_on_zone_timeout AssemblyId.headlamp 0 w).0 in
    let w'' = retried env e AssemblyId.headlamp m b in
    rw there (
      ap (did _) (
        ap (put b.next_turn_id w'') (put-singleton w w' (opened b))
        ∙ put-singleton w' w'' (opened b)))
retold_puts env e AssemblyId.wiper m b there =
    let w = barrier_of env e AssemblyId.wiper m b in
    let w' = (act_on_zone_timeout AssemblyId.wiper 0 w).0 in
    let w'' = retried env e AssemblyId.wiper m b in
    rw there (
      ap (did _) (
        ap (put b.next_turn_id w'') (put-singleton w w' (opened b))
        ∙ put-singleton w' w'' (opened b)))

still_waiting :
    (env : Env) (e : FsmEvent) (a : AssemblyId) (m : ZoneMessage) (b : Brain)
    → try_drain_barrier_queue env (waiting_again env e a m b) ≡ did [] (waiting_again env e a m b)
unfolding try_drain_barrier_queue drain retried act_on_zone_timeout
still_waiting env e AssemblyId.headlamp m b = refl
still_waiting env e AssemblyId.wiper m b = refl

-- The timeout tells the zone the same message again, under the next attempt, and waits for that
-- attempt's answer.
pub timeout_retells :
    (env : Env) (e : FsmEvent) (a : AssemblyId) (m : ZoneMessage) (b : Brain)
    → env.zone_accepts m b.next_turn_id 1 ≡ true
    → handle env
        (DigitalTwinCarVocabulary.zone_tell_back_timeout a b.next_turn_id 0)
        (waiting_on env e a m b)
      ≡ did
          (tell m b.next_turn_id 1 (read_clock env b) ∷ arm (second_timer a b) ∷ [])
          (waiting_again env e a m b)
unfolding handle ingest on_zone_timeout
timeout_retells env e a m b there =
    let w = barrier_of env e a m b in
    rw (
      on_zone_timeout,
      find_waiting-head w [],
      decided-retry env b.next_turn_id 1 a (waiting_on env e a m b) (act_on_zone_timeout a 0 w)
          (times_out env e a m b),
      keeps_message env e a m b,
      retold_puts env e a m b there,
      still_waiting env e a m b,
    )

matches_second_only :
    (env : Env) (e : FsmEvent) (a : AssemblyId) (m : ZoneMessage) (b : Brain)
    → (tell_attempt_matches a 0 (retried env e a m b) ≡ false)
      × (tell_attempt_matches a 1 (retried env e a m b) ≡ true)
unfolding tell_attempt_matches retried act_on_zone_timeout
matches_second_only env e AssemblyId.headlamp m b = (refl, refl)
matches_second_only env e AssemblyId.wiper m b = (refl, refl)

find_retried :
    (env : Env) (e : FsmEvent) (a : AssemblyId) (m : ZoneMessage) (b : Brain)
    → find_waiting b.next_turn_id (waiting (retried env e a m b) ∷ []) ≡ some (retried env e a m b)
unfolding retried act_on_zone_timeout
find_retried env e AssemblyId.headlamp m b =
    find_waiting-head (retried env e AssemblyId.headlamp m b) []
find_retried env e AssemblyId.wiper m b = find_waiting-head (retried env e AssemblyId.wiper m b) []

-- The late answer to the first tell changes nothing.
pub first_answer_ignored :
    (env : Env) (e : FsmEvent) (a : AssemblyId) (m : ZoneMessage) (z : ZoneReply) (b : Brain)
    → handle env
        (DigitalTwinCarVocabulary.zone_ready a b.next_turn_id 0 z)
        (waiting_again env e a m b)
      ≡ did [] (waiting_again env e a m b)
unfolding handle ingest on_zone_ready
first_answer_ignored env e a m z b = rw (
  on_zone_ready,
  find_retried env e a m b,
  (matches_second_only env e a m b).0,
  still_waiting env e a m b,
)

abbrev answered_again : Env → FsmEvent → AssemblyId → ZoneMessage → ZoneReply → Brain → Brain
answered_again env e a m z b = record (opened b) {
  barrier_queue = waiting (act_on_zone_reply a z (retried env e a m b)).0 ∷ [];
}

second_answer_taken :
    (env : Env) (e : FsmEvent) (a : AssemblyId) (m : ZoneMessage) (z : ZoneReply) (b : Brain)
    → replied b.next_turn_id a z (retried env e a m b) (waiting_again env e a m b)
      ≡ did (abort (second_timer a b) ∷ []) (answered_again env e a m z b)
unfolding replied act_on_zone_reply retried act_on_zone_timeout
second_answer_taken env e AssemblyId.headlamp m z b =
    let w = retried env e AssemblyId.headlamp m b in
    ap (did _) (put-singleton w (act_on_zone_reply AssemblyId.headlamp z w).0 (opened b))
second_answer_taken env e AssemblyId.wiper m z b =
    let w = retried env e AssemblyId.wiper m b in
    ap (did _) (put-singleton w (act_on_zone_reply AssemblyId.wiper z w).0 (opened b))

drains_again :
    (env : Env) (e : FsmEvent) (a : AssemblyId) (m : ZoneMessage) (z : ZoneReply) (c : Brain)
    → let b = record c { barrier_queue = [] } in
      try_drain_barrier_queue env (answered_again env e a m z b)
      ≡ commit_resolved_turn env (answered_turn env e a z b) (opened b)
unfolding try_drain_barrier_queue drain act_on_zone_reply retried act_on_zone_timeout
drains_again env e AssemblyId.headlamp m z c = drain-zero env _
drains_again env e AssemblyId.wiper m z c = drain-zero env _

on_zone_ready_takes_second :
    (env : Env) (e : FsmEvent) (a : AssemblyId) (m : ZoneMessage) (z : ZoneReply) (b : Brain)
    → on_zone_ready a b.next_turn_id 1 z (waiting_again env e a m b)
      ≡ did (abort (second_timer a b) ∷ []) (answered_again env e a m z b)
unfolding on_zone_ready
on_zone_ready_takes_second env e a m z b =
    rw (on_zone_ready, find_retried env e a m b, (matches_second_only env e a m b).1)
      (second_answer_taken env e a m z b)

commits_empty :
    (env : Env) (e : FsmEvent) (a : AssemblyId) (m : ZoneMessage) (z : ZoneReply) (c : Brain)
    → let b = record c { barrier_queue = [] } in
      handle env
        (DigitalTwinCarVocabulary.zone_ready a b.next_turn_id 1 z)
        (waiting_again env e a m b)
      ≡ behind
          (abort (second_timer a b) ∷ [])
          (commit_resolved_turn env (answered_turn env e a z b) (opened b))
unfolding handle ingest
commits_empty env e a m z c =
    let b = record c { barrier_queue = [] } in
    ap (and_then (try_drain_barrier_queue env)) (on_zone_ready_takes_second env e a m z b)
    ∙ ap (behind (abort (second_timer a b) ∷ [])) (drains_again env e a m z c)

-- The answer to the second tell commits the turn.
pub second_answer_commits :
    (env : Env) (e : FsmEvent) (a : AssemblyId) (m : ZoneMessage) (z : ZoneReply) (b : Brain)
    → b.barrier_queue ≡ []
    → handle env
        (DigitalTwinCarVocabulary.zone_ready a b.next_turn_id 1 z)
        (waiting_again env e a m b)
      ≡ behind
          (abort (second_timer a b) ∷ [])
          (commit_resolved_turn env (answered_turn env e a z b) (opened b))
second_answer_commits env e a m z b idle =
    subst
      (λ (x : Brain).
        handle env (DigitalTwinCarVocabulary.zone_ready a x.next_turn_id 1 z)
          (waiting_again env e a m x)
        ≡ behind (abort (second_timer a x) ∷ [])
            (commit_resolved_turn env (answered_turn env e a z x) (opened x)))
      (idle_brain b idle) (commits_empty env e a m z b)
