-- ===== src/Together/Landing.antt =====
-- The answer that the head of the queue waits for, when its turn is one hop:
-- crates/common/src/twin_runtime/controller/virtual_car_actor.rs.
use sdv_simulation.Prelude.{ℕ, false, List, [], ◌∷◌, length, ◌≡◌, refl, sym, ap, ◌∙◌, subst}
use sdv_simulation.Physics.{Instant}
use sdv_simulation.Modes.{AssemblyId}
use sdv_simulation.Fsm.{StepResult}
use sdv_simulation.Fsm.Machineries.{FsmEvent}
use sdv_simulation.Twin.{ZoneMessage, ZoneReply, DigitalTwinCarVocabulary}
use sdv_simulation.Turn.Routine.{has_lifecycle}
use sdv_simulation.Barrier.{TellBackTimer}
use sdv_simulation.Barrier.Entry.{BarrierEntry, waiting}
use sdv_simulation.Brain.{Env, Brain, Outcome, abort, did, behind, and_then, tell_back_timer}
use sdv_simulation.Brain.Commit.{commit_resolved_turn}
use sdv_simulation.Brain.Handle.{drain, handle}
use sdv_simulation.Brain.Drain.{IsSettled, drain-stop}
use sdv_simulation.Brain.Landing.{Lands, hop_of, IsSingle, commit-Lands}
use sdv_simulation.Brain.Lacks.{any-append}
use sdv_simulation.Brain.Tells.{is_tell}
use sdv_simulation.Brain.Success.{IsReachable}
use sdv_simulation.Together.Head.{asking, answered_by, answers_head}

drain_settled :
    (env : Env) (es : List BarrierEntry) (b : Brain)
    → b.barrier_queue ≡ es
    → IsSettled es
    → drain (length es) env b ≡ did [] b
unfolding drain
drain_settled env [] b is settled = refl
drain_settled env (e ∷ es) b is settled = drain-stop (length es) env b e es is settled

-- Where the drain loop finds nothing more to commit, the commit is all.
drained-Lands :
    (env : Env) (es : List BarrierEntry) (timer : TellBackTimer) (h : StepResult) (b : Brain)
    (o : Outcome)
    → b.barrier_queue ≡ es
    → IsSettled es
    → Lands h b o
    → Lands h b (behind (abort timer ∷ []) (and_then (drain (length es) env) o))
drained-Lands env es timer h b o is settled v =
    let quiet = drain_settled env es o.brain (v.queue ∙ is) settled in
    rw (v.success, quiet)
      (record {
        success = refl;
        queue = v.queue;
        car = v.car;
        mute = any-append is_tell o.effects [] v.mute;
      })

pub answer-Lands :
    (env : Env) (t : ℕ) (e : FsmEvent) (now : Instant) (a : AssemblyId) (m : ZoneMessage)
    (z : ZoneReply) (es : List BarrierEntry) (b : Brain)
    → IsReachable env
    → b.barrier_queue ≡ waiting (asking t e now a m) ∷ es
    → IsSettled es
    → let rest = record b { barrier_queue = es } in
      let turn = answered_by e now a z in
      IsSingle turn rest
      → has_lifecycle (hop_of turn rest).actions ≡ false
      → Lands (hop_of turn rest) rest (handle env (DigitalTwinCarVocabulary.zone_ready a t 0 z) b)
answer-Lands env t e now a m z es b reachable is settled single plain =
    let rest = record b { barrier_queue = es } in
    let turn = answered_by e now a z in
    let v = commit-Lands env turn rest reachable single plain in
    let landed =
      drained-Lands env es (tell_back_timer a t 0) (hop_of turn rest) rest
        (commit_resolved_turn env turn rest) refl settled v in
    let queued : record b { barrier_queue = waiting (asking t e now a m) ∷ es } ≡ b =
      ap (λ q. record b { barrier_queue = q }) (sym is) in
    subst (λ (o : Outcome). Lands (hop_of turn rest) rest o)
      (sym (answers_head env t e now m z es a b)
        ∙ ap (handle env (DigitalTwinCarVocabulary.zone_ready a t 0 z)) queued)
      landed
