-- ===== src/Examples/Runtime.antt =====
-- The reorder buffer and the brain at concrete inputs.
use sdv_simulation.Prelude.{
  ℕ, ◌+◌, ◌==◌, true, false, List, [], ◌∷◌, length, is_some, none, some, ◌≡◌, ◌≢◌, refl, arith,
}
use sdv_simulation.Modes.{FsmState, AssemblyId}
use sdv_simulation.Zones.Headlamp.{HeadlampState, HeadlampMessage}
use sdv_simulation.Fsm.Machineries.{FsmEvent}
use sdv_simulation.Twin.{ZoneReply, ZoneMessage, DigitalTwinCarVocabulary}
use sdv_simulation.Turn.{ResolvedTurn}
use sdv_simulation.Turn.Replies
use sdv_simulation.Turn.Quiescence.{run_to_quiescence-Settles}
use sdv_simulation.AssemblyMap.{insert, empty}
use sdv_simulation.Barrier.Entry.{waiting}
use sdv_simulation.Barrier.{
  TurnBarrier, act_on_zone_reply, act_on_zone_timeout, tell_attempt_matches, new,
}
use sdv_simulation.Barrier.Wait.{TellBackWait, on_tell_back_timeout}
use sdv_simulation.Barrier.Wait
use sdv_simulation.Barrier.Retries.{
  silent_outcomes, n_retries, outcome_of, wait_of, silent_outcomes-n_retries,
  act_on_zone_timeout-on_tell_back_timeout,
}
use sdv_simulation.Barrier.Taken.{HasTaken}
use sdv_simulation.Barrier.Coverage.{Operation, apply_all, apply, complete_has_replies}
use sdv_simulation.Brain.{Brain, full, tell_zone, did, synthetic_reply_for, tell_back_timer}
use sdv_simulation.Brain.Commit.{commit_resolved_turn}
use sdv_simulation.Brain.Handle.{
  find_waiting, on_zone_ready, on_zone_timeout, decided, retold, put, put_waiting, aborted, ingest,
  drain, try_drain_barrier_queue, handle,
}
use sdv_simulation.Prelude.Result.{ok}
use sdv_simulation.Brain.Retell.Runs.{handle_all, messages_succeed}
use sdv_simulation.Brain.Drain.{
  IsSettled, HasDrained, try_drain_barrier_queue-HasDrained, handle-HasDrained,
}
use sdv_simulation.Brain.Order.{IsOrdered}
use sdv_simulation.Brain.Order.Handlers.{handle-IsOrdered}
use sdv_simulation.Brain.Replies.{on_zone_ready_lem, exhausted_takes_synthetic}
use sdv_simulation.Brain.Ledger.{Numbers, numbers, hops_of, commit_resolved_turn-Numbers}
use sdv_simulation.Examples.{lamp, rolling, world, headlamp_barrier, waiting_brain}

abbrev first_wait : TellBackWait
first_wait = Wait.new 1

act_on_zone_timeout-on_tell_back_timeout_example :
    let after = act_on_zone_timeout AssemblyId.headlamp 0 headlamp_barrier in
    let decision = on_tell_back_timeout rolling.headlamp first_wait in
    (after.1 ≡ outcome_of decision)
    × (after.0.zone_waits AssemblyId.headlamp ≡ some (wait_of first_wait decision))
    × (after.0.zone_timers AssemblyId.headlamp ≡ none)
act_on_zone_timeout-on_tell_back_timeout_example =
    act_on_zone_timeout-on_tell_back_timeout rolling.headlamp AssemblyId.headlamp headlamp_barrier
      first_wait refl

silent_outcomes-n_retries_example :
    silent_outcomes AssemblyId.headlamp 3 0 headlamp_barrier ≡ n_retries 2 0
silent_outcomes-n_retries_example =
    silent_outcomes-n_retries AssemblyId.headlamp 2 headlamp_barrier 1 0 (omega arith) refl

abbrev real_reply : ZoneReply
real_reply = ZoneReply.headlamp (record { ctx = lamp HeadlampState.ready none; outcomes = [] })

-- The headlamp is told, does not answer in time, is told again, and answers.
abbrev late_answer : List Operation
late_answer =
    Operation.add AssemblyId.headlamp (ZoneMessage.headlamp (HeadlampMessage.ambient_lux 100))
      first_wait (tell_back_timer AssemblyId.headlamp 1 0)
    ∷ Operation.timeout AssemblyId.headlamp 0
    ∷ Operation.rearm AssemblyId.headlamp (tell_back_timer AssemblyId.headlamp 1 1)
    ∷ Operation.reply AssemblyId.headlamp real_reply
    ∷ []

complete_has_replies_example :
    is_some ((apply_all late_answer (new 1 FsmEvent.timer_tick 0)).zone_replies AssemblyId.headlamp)
    ≡ true
unfolding apply_all apply act_on_zone_reply act_on_zone_timeout
complete_has_replies_example =
    complete_has_replies 1 FsmEvent.timer_tick 0 late_answer refl AssemblyId.headlamp refl

abbrev start_up : ResolvedTurn
start_up = record { ingress = FsmEvent.power_on; now = 3; zone_replies = Replies.default }

try_drain_barrier_queue-HasDrained_example :
    HasDrained (try_drain_barrier_queue world waiting_brain)
try_drain_barrier_queue-HasDrained_example = try_drain_barrier_queue-HasDrained world waiting_brain

abbrev answer : DigitalTwinCarVocabulary
answer = DigitalTwinCarVocabulary.zone_ready AssemblyId.headlamp 1 0 real_reply

handle-HasDrained_example : HasDrained (handle world answer waiting_brain)
handle-HasDrained_example = handle-HasDrained world answer waiting_brain (λ h. cc)

abbrev silence : DigitalTwinCarVocabulary
silence = DigitalTwinCarVocabulary.zone_tell_back_timeout AssemblyId.headlamp 1 0

handle-IsOrdered_example : IsOrdered (handle world silence waiting_brain).brain
unfolding handle ingest on_zone_timeout find_waiting decided act_on_zone_timeout retold put
    put_waiting tell_zone try_drain_barrier_queue drain
handle-IsOrdered_example =
    handle-IsOrdered world silence waiting_brain (omega arith, omega arith) (omega arith)
      (omega arith)

on_zone_ready_lem_example :
    let o = on_zone_ready AssemblyId.headlamp 1 0 real_reply waiting_brain in
    (tell_attempt_matches AssemblyId.headlamp 0 headlamp_barrier ≡ false → o ≡ did [] waiting_brain)
    × (tell_attempt_matches AssemblyId.headlamp 0 headlamp_barrier ≡ true
        → (o.effects ≡ aborted (headlamp_barrier.zone_timers AssemblyId.headlamp))
          × ((w : TurnBarrier) × (find_waiting 1 o.brain.barrier_queue ≡ some w)
              × HasTaken AssemblyId.headlamp real_reply headlamp_barrier w)
          × ((s : ℕ)
              → s ≢ 1
              → find_waiting s o.brain.barrier_queue ≡ find_waiting s waiting_brain.barrier_queue))
unfolding find_waiting
on_zone_ready_lem_example =
    on_zone_ready_lem AssemblyId.headlamp 1 0 real_reply waiting_brain headlamp_barrier refl

commit_resolved_turn-Numbers_example :
    Numbers
      (numbers 1 (length (hops_of start_up waiting_brain)))
      (1 + length (hops_of start_up waiting_brain))
      (commit_resolved_turn world start_up waiting_brain)
unfolding hops_of
commit_resolved_turn-Numbers_example =
    commit_resolved_turn-Numbers world (λ n. elim (n == 2) [ true ↦ some full | false ↦ none ])
      start_up waiting_brain refl
      (omega (
        arith,
        (run_to_quiescence-Settles FsmState.driving rolling FsmEvent.power_on 3
            Replies.default).short,
      ))

-- The barrier after its two retries, with the headlamp's reply to the last.
abbrev worn_barrier : TurnBarrier
worn_barrier = record headlamp_barrier {
  zone_waits =
      insert AssemblyId.headlamp (record { turn_id = 1; tell_attempt = 2; retries_remaining = 0 })
        empty;
  zone_replies = insert AssemblyId.headlamp real_reply empty;
}

abbrev worn_brain : Brain
worn_brain = record waiting_brain { barrier_queue = waiting worn_barrier ∷ [] }

exhausted_takes_synthetic_example :
    let o = on_zone_timeout world AssemblyId.headlamp 1 2 worn_brain in
    ((w : TurnBarrier) × (find_waiting 1 o.brain.barrier_queue ≡ some w)
      × HasTaken AssemblyId.headlamp
          (synthetic_reply_for rolling AssemblyId.headlamp)
          worn_barrier
          w)
    × ((s : ℕ)
        → s ≢ 1
        → find_waiting s o.brain.barrier_queue ≡ find_waiting s worn_brain.barrier_queue)
unfolding find_waiting
exhausted_takes_synthetic_example =
    exhausted_takes_synthetic world AssemblyId.headlamp 1 2 worn_brain worn_barrier
      (record { turn_id = 1; tell_attempt = 2; retries_remaining = 0 }) refl refl refl

-- The headlamp does not answer the first tell, is told again, and answers that one.
abbrev slow_exchange : List DigitalTwinCarVocabulary
slow_exchange =
    DigitalTwinCarVocabulary.fsm (FsmEvent.update_ambient_lux 100)
    ∷ DigitalTwinCarVocabulary.zone_tell_back_timeout AssemblyId.headlamp 2 0
    ∷ DigitalTwinCarVocabulary.get_status
    ∷ DigitalTwinCarVocabulary.zone_ready AssemblyId.headlamp 2 1 real_reply
    ∷ []

messages_succeed_example :
    let o = handle_all world slow_exchange (record waiting_brain { barrier_queue = [] }) in
    (o.result ≡ ok tt) × IsSettled o.brain.barrier_queue
messages_succeed_example =
    messages_succeed world slow_exchange (record waiting_brain { barrier_queue = [] })
      (λ m t k. refl) (λ e. cc) refl
