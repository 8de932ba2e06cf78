-- ===== src/Brain/Handle.antt =====
-- The handlers and the drain loop of
-- crates/common/src/twin_runtime/controller/virtual_car_actor.rs. The loop counts down the entries
-- that the queue has when it starts.
use sdv_simulation.Prelude.{
  ℕ, zero, suc, ◌-◌, ◌%◌, ◌^◌, Bool, List, [], ◌∷◌, ◌++◌, map, Option, none, some, ◌==◌, length,
  if◌then◌else◌,
}
use sdv_simulation.Prelude.Result.{Result, ok, err}
use sdv_simulation.Physics.{Instant}
use sdv_simulation.Modes.{AssemblyId, FsmState}
use sdv_simulation.Zones
use sdv_simulation.Fsm.Machineries.{FsmEvent}
use sdv_simulation.Twin.{
  DigitalTwinCar, DigitalTwinCarError, CarSnapshot, ZoneReply, ZoneMessage, ZoneSpontaneousEvent,
  DigitalTwinCarVocabulary,
}
use sdv_simulation.Twin
use sdv_simulation.Twin.Identity.{Text}
use sdv_simulation.Turn.Replies
use sdv_simulation.Turn.Zone.{zone_message_for_event}
use sdv_simulation.Barrier.{
  TurnBarrier, TimeoutOutcome, retry, gave_up, TellBackTimer, add_pending_zone,
  tell_attempt_matches, act_on_zone_reply, act_on_zone_timeout, store_retry_timer,
}
use sdv_simulation.Barrier
use sdv_simulation.Barrier.Entry.{BarrierEntry, waiting, passthrough, as_waiting}
use sdv_simulation.Barrier.Entry
use sdv_simulation.Barrier.Wait
use sdv_simulation.Published.{SessionEpoch, session_id_nanos}
use sdv_simulation.Actuation.{with_command_channel}
use sdv_simulation.Actuation
use sdv_simulation.Brain.{
  timer_tick, Effect, arm, abort, answer, stop_zone, no_zone_message, status_reply, StatusPort,
  is_closed, listening, broken, Env, Brain, Outcome, did, fail, behind, and_then, diag, read_clock,
  tick, advance_id, tell_zone, tell_back_timer, push_back, synthetic_reply_for,
}
use sdv_simulation.Brain.Commit.{commit_resolved_turn}

-- `pre_start`, given the name, whether there is a command channel, and the clock's readings.
unfoldable pub pre_start : Text → Bool → SessionEpoch → Result DigitalTwinCarError Brain
unfolding Twin.new
pre_start identity has_channel epoch = elim (Twin.new identity FsmState.off Zones.default) [
  | err e ↦ err e
  | ok car ↦ ok (record {
    twin_car = car;
    next_turn_id = 1;
    barrier_queue = [];
    next_record_seq = 1;
    session_epoch = epoch;
    actuation_manager =
        if has_channel
        then with_command_channel identity (session_id_nanos epoch % 2 ^ 64)
        else Actuation.default;
    clock_reads = 0;
  })
]

-- The waiting barrier of a turn: the first entry of that id, unless it is a passthrough.
unfoldable pub find_waiting : ℕ → List BarrierEntry → Option TurnBarrier
find_waiting turn_id [] = none
find_waiting turn_id (e ∷ es) =
    let rest = find_waiting turn_id es in if Entry.turn_id e == turn_id then as_waiting e else rest

-- The queue with that barrier replaced.
unfoldable pub put_waiting : ℕ → TurnBarrier → List BarrierEntry → List BarrierEntry
put_waiting turn_id w [] = []
put_waiting turn_id w (e ∷ es) =
    let rest = put_waiting turn_id w es in
    if Entry.turn_id e == turn_id then waiting w ∷ es else e ∷ rest

unfoldable pub put : ℕ → TurnBarrier → Brain → Brain
unfolding put_waiting
put turn_id w b = record b { barrier_queue = put_waiting turn_id w b.barrier_queue }

unfoldable pub pushed_turn :
    Env → ℕ → FsmEvent → Instant → Option (AssemblyId × ZoneMessage) → Brain → Outcome
unfolding tell_zone
pushed_turn env turn_id event now (some (zone_id, message)) b =
    let timer = tell_back_timer zone_id turn_id 0 in
    and_then
      (λ b'. did (arm timer ∷ []) (
        push_back
          (waiting (
            add_pending_zone zone_id message (Wait.new turn_id) timer
              (Barrier.new turn_id event now)))
          b'))
      (tell_zone env message turn_id 0 now b)
pushed_turn env turn_id event now none b =
    did [] (push_back (passthrough (record { turn_id = turn_id; event = event; now = now })) b)

unfoldable pub begin_fsm_turn : Env → FsmEvent → Instant → Brain → Outcome
unfolding pushed_turn zone_message_for_event
begin_fsm_turn env event now b =
    pushed_turn env b.next_turn_id event now (zone_message_for_event event b.twin_car.current_state)
      (record b { next_turn_id = advance_id b.next_turn_id })

abbrev pub aborted : Option TellBackTimer → List Effect
aborted none = []
aborted (some timer) = abort timer ∷ []

unfoldable pub replied : ℕ → AssemblyId → ZoneReply → TurnBarrier → Brain → Outcome
unfolding act_on_zone_reply put
replied turn_id zone_id reply w b =
    let (w', timer) = act_on_zone_reply zone_id reply w in did (aborted timer) (put turn_id w' b)

unfoldable pub on_zone_ready : AssemblyId → ℕ → ℕ → ZoneReply → Brain → Outcome
unfolding find_waiting tell_attempt_matches replied
on_zone_ready zone_id turn_id tell_attempt reply b = elim (find_waiting turn_id b.barrier_queue) [
  | none ↦ did [] b
  | some w ↦
      if tell_attempt_matches zone_id tell_attempt w
      then replied turn_id zone_id reply w b
      else did [] b
]

-- The re-tell of a zone whose wait `w` has just advanced.
unfoldable pub retold :
    Env → ℕ → AssemblyId → ℕ → TurnBarrier → Option ZoneMessage → Brain → Outcome
unfolding tell_zone put
retold env turn_id zone_id next_attempt w none b = fail no_zone_message b
retold env turn_id zone_id next_attempt w (some message) b =
    let timer = tell_back_timer zone_id turn_id next_attempt in
    and_then (λ b'. did (arm timer ∷ []) (put turn_id (store_retry_timer zone_id timer w) b'))
      (tell_zone env message turn_id next_attempt w.now b)

unfoldable pub decided : Env → ℕ → AssemblyId → Brain → TurnBarrier × TimeoutOutcome → Outcome
unfolding replied retold put
decided env turn_id zone_id b (w, retry next_attempt) =
    retold env turn_id zone_id next_attempt w (Barrier.zone_message zone_id w) (put turn_id w b)
decided env turn_id zone_id b (w, gave_up) =
    replied turn_id zone_id (synthetic_reply_for b.twin_car.context zone_id) w (put turn_id w b)

unfoldable pub on_zone_timeout : Env → AssemblyId → ℕ → ℕ → Brain → Outcome
unfolding find_waiting act_on_zone_timeout decided
on_zone_timeout env zone_id turn_id tell_attempt b = elim (find_waiting turn_id b.barrier_queue) [
  | none ↦ did [] b
  | some w ↦ decided env turn_id zone_id b (act_on_zone_timeout zone_id tell_attempt w)
]

unfoldable pub on_zone_spontaneous : Env → AssemblyId → ZoneSpontaneousEvent → Brain → Outcome
unfolding commit_resolved_turn
on_zone_spontaneous env zone_id (ZoneSpontaneousEvent.headlamp direction cause reply) b =
    commit_resolved_turn env
      (record {
        ingress = FsmEvent.front_headlamp_actuation_incomplete direction cause;
        now = read_clock env b;
        zone_replies = Replies.with_reply AssemblyId.headlamp (ZoneReply.headlamp reply);
      })
      (tick b)

unfoldable pub drain : ℕ → Env → Brain → Outcome
unfolding commit_resolved_turn
drain zero env b = did [] b
drain (suc room) env b = elim b.barrier_queue [
  | [] ↦ did [] b
  | e ∷ es ↦
      let committed =
        and_then (drain room env) (
          commit_resolved_turn env (Entry.into_resolved_turn e)
            (record b { barrier_queue = es })) in
      if Entry.is_complete e then committed else did [] b
]

unfoldable pub try_drain_barrier_queue : Env → Brain → Outcome
unfolding drain
try_drain_barrier_queue env b = drain (length b.barrier_queue) env b

abbrev pub answered : StatusPort → CarSnapshot → Brain → Outcome
answered is_closed snapshot b = did [] b
answered listening snapshot b = did (answer snapshot ∷ []) b
answered broken snapshot b = fail status_reply b

abbrev pub tick_diag : Env → FsmEvent → List Effect
tick_diag env FsmEvent.timer_tick = if env.log_timer_tick then diag env timer_tick else []
tick_diag env _ = []

-- What a message does before the queue is drained; a status request does nothing to it.
unfoldable pub ingest : Env → DigitalTwinCarVocabulary → Brain → Outcome
unfolding begin_fsm_turn on_zone_ready on_zone_timeout on_zone_spontaneous
ingest env (DigitalTwinCarVocabulary.fsm event) b =
    behind (tick_diag env event) (begin_fsm_turn env event (read_clock env b) (tick b))
ingest env (DigitalTwinCarVocabulary.zone_ready zone_id turn_id tell_attempt reply) b =
    on_zone_ready zone_id turn_id tell_attempt reply b
ingest env (DigitalTwinCarVocabulary.zone_tell_back_timeout zone_id turn_id tell_attempt) b =
    on_zone_timeout env zone_id turn_id tell_attempt b
ingest env (DigitalTwinCarVocabulary.zone_spontaneous zone_id event) b =
    on_zone_spontaneous env zone_id event b
ingest env DigitalTwinCarVocabulary.get_status b = did [] b

unfoldable pub handle : Env → DigitalTwinCarVocabulary → Brain → Outcome
unfolding ingest try_drain_barrier_queue
handle env DigitalTwinCarVocabulary.get_status b =
    answered env.status_port (record { car = b.twin_car; as_of_seq = b.next_record_seq - 1 }) b
handle env m b = and_then (try_drain_barrier_queue env) (ingest env m b)

-- `for entry in &mut barrier_queue { entry.abort_all_timers() }`.
abbrev pub abort_entries : List BarrierEntry → List Effect
abort_entries [] = []
abort_entries (e ∷ es) = map abort (Entry.abort_all_timers e) ++ abort_entries es

unfoldable pub post_stop : Brain → Outcome
post_stop b =
    did
      (abort_entries b.barrier_queue
        ++ stop_zone AssemblyId.headlamp ∷ stop_zone AssemblyId.wiper ∷ [])
      (record b { barrier_queue = [] })
