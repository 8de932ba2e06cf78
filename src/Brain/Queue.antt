-- ===== src/Brain/Queue.antt =====
-- What a commit of crates/common/src/twin_runtime/controller/virtual_car_actor.rs does to the
-- reorder buffer: it only adds entries behind, each incomplete and of a fresh turn id.
use sdv_simulation.Prelude.{
  ℕ, suc, ◌≤◌, ◌<◌, false, List, [], ◌∷◌, ◌++◌, map, Option, none, some, ◌≡◌, refl, sym, ap, ◌∙◌,
  arith, All, Bool-cases, inl, inr, append-nil, append_assoc,
}
use sdv_simulation.Prelude.Word.{u64_max}
use sdv_simulation.Prelude.Result.{Result-cases}
use sdv_simulation.Physics.{Instant}
use sdv_simulation.Modes.{AssemblyId}
use sdv_simulation.Fsm.Machineries.{DomainAction}
use sdv_simulation.Fsm.{StepResult}
use sdv_simulation.Twin.{ZoneMessage, apply_step}
use sdv_simulation.Turn.{HopRecord, ResolvedTurn, final_step, merged_actions}
use sdv_simulation.Turn
use sdv_simulation.Barrier.Entry.{BarrierEntry}
use sdv_simulation.Barrier.Entry
use sdv_simulation.Brain.{
  Env, Brain, Outcome, and_then, tell_zone, advance_id, push_back, become_on_message_for,
  become_off_message_for, read_clock, tick,
}
use sdv_simulation.Brain.Commit.{
  emit_records, begin_assembly_zone, begin_assembly_zones, dispatch, dispatch_all, take_step,
  apply_hops, report, apply_final, apply_committed_quiescence, commit_resolved_turn,
}

abbrev pub ids : List BarrierEntry → List ℕ
ids = map Entry.turn_id

-- Strictly ascending numbers, none below `lo` and all below `hi`.
abbrev pub Ascending : ℕ → List ℕ → ℕ → Type 0
Ascending lo [] hi = lo ≤ hi
Ascending lo (n ∷ ns) hi = (lo ≤ n) × Ascending (suc n) ns hi

pub Ascending-weaken :
    (a b : ℕ) (ns : List ℕ) (hi : ℕ) → a ≤ b → Ascending b ns hi → Ascending a ns hi
Ascending-weaken a b [] hi h k = omega arith
Ascending-weaken a b (n ∷ ns) hi h (k, ks) = (omega arith, ks)

pub Ascending-append :
    (a b c : ℕ) (xs ys : List ℕ) → Ascending a xs b → Ascending b ys c → Ascending a (xs ++ ys) c
Ascending-append a b c [] ys h k = Ascending-weaken a b ys c h k
Ascending-append a b c (x ∷ xs) ys (h, hs) k = (h, Ascending-append (suc x) b c xs ys hs k)

pub map-append :
    {A B : Type 0} (f : A → B) (xs ys : List A) → map f (xs ++ ys) ≡ map f xs ++ map f ys
map-append f [] ys = refl
map-append f (x ∷ xs) ys = ap (◌∷◌ (f x)) (map-append f xs ys)

All-append : {A : Type 0} (P : A → Type 0) (xs ys : List A) → All P xs → All P ys → All P (xs ++ ys)
All-append P [] ys h k = k
All-append P (x ∷ xs) ys (h, hs) k = (h, All-append P xs ys hs k)

abbrev pub IsIncomplete : BarrierEntry → Type 0
IsIncomplete e = Entry.is_complete e ≡ false

-- From the first brain to the second, entries are only added behind, every one incomplete, under
-- fresh ids in ascending order as long as the counter does not saturate.
pub record Grows (b b' : Brain) : Type 0 where
  pub grown : List BarrierEntry
  pub queue : b'.barrier_queue ≡ b.barrier_queue ++ grown
  pub incomplete : All IsIncomplete grown
  pub rises :
      b.next_turn_id ≤ u64_max → (b.next_turn_id ≤ b'.next_turn_id) × (b'.next_turn_id ≤ u64_max)
  pub ascends :
      b.next_turn_id ≤ u64_max
      → b'.next_turn_id < u64_max
      → Ascending b.next_turn_id (ids grown) b'.next_turn_id

-- A brain with the same queue and counter.
pub Grows-same :
    (b b' : Brain)
    → b'.barrier_queue ≡ b.barrier_queue
    → b'.next_turn_id ≡ b.next_turn_id
    → Grows b b'
Grows-same b b' q n = record {
  grown = [];
  queue = q ∙ sym (append-nil b.barrier_queue);
  incomplete = tt;
  rises = λ s. (omega (arith, n), omega (arith, n));
  ascends = λ s h. omega (arith, n);
}

Grows-trans : (a b c : Brain) → Grows a b → Grows b c → Grows a c
Grows-trans a b c g k = record {
  grown = g.grown ++ k.grown;
  queue = k.queue ∙ ap (λ q. q ++ k.grown) g.queue ∙ append_assoc a.barrier_queue g.grown k.grown;
  incomplete = All-append IsIncomplete g.grown k.grown g.incomplete k.incomplete;
  rises = λ s.
      let (up, below) = g.rises s in let (up', below') = k.rises below in (omega arith, below');
  ascends = λ s h.
      let (up, below) = g.rises s in
      let (up', below') = k.rises below in
      rw (map-append Entry.turn_id g.grown k.grown) (
        Ascending-append a.next_turn_id b.next_turn_id c.next_turn_id _ _
          (g.ascends s (omega arith)) (k.ascends below h));
}

Grows-and_then :
    (b : Brain) (f : Brain → Outcome) (o : Outcome)
    → Grows b o.brain
    → ((b' : Brain) → Grows b' (f b').brain)
    → Grows b (and_then f o).brain
Grows-and_then b f o g k = elim (Result-cases o.result) [
  | inl (u, e) ↦ rw e (Grows-trans b o.brain (f o.brain).brain g (k o.brain))
  | inr (x, e) ↦ rw e g
]

emit_records-Grows :
    (env : Env) (hops : List HopRecord) (b : Brain) → Grows b (emit_records env hops b).brain
unfolding emit_records
emit_records-Grows env [] b = Grows-same b b refl refl
emit_records-Grows env (h ∷ hops) b =
    Grows-trans b _ _ (Grows-same b _ refl refl) (emit_records-Grows env hops _)

-- Taking an id, whether or not an entry is pushed under it.
abbrev pub took_id : Brain → Brain
took_id b = record b { next_turn_id = advance_id b.next_turn_id }

pub Grows-took_id :
    (b b' : Brain)
    → b'.barrier_queue ≡ b.barrier_queue
    → b'.next_turn_id ≡ advance_id b.next_turn_id
    → Grows b b'
Grows-took_id b b' q n = record {
  grown = [];
  queue = q ∙ sym (append-nil b.barrier_queue);
  incomplete = tt;
  rises = λ s. (omega (arith, n), omega (arith, n));
  ascends = λ s h. omega (arith, n);
}

Grows-push :
    (b : Brain) (e : BarrierEntry)
    → Entry.turn_id e ≡ b.next_turn_id
    → IsIncomplete e
    → Grows b (push_back e (took_id b))
Grows-push b e t i = record {
  grown = e ∷ [];
  queue = refl;
  incomplete = (i, tt);
  rises = λ s. (omega arith, omega arith);
  ascends = λ s h. rw t (omega arith, omega arith);
}

begin_assembly_zone-Grows :
    (env : Env) (message : AssemblyId → ZoneMessage) (now : Instant) (a : AssemblyId) (b : Brain)
    → Grows b (begin_assembly_zone env message now a b).brain
unfolding begin_assembly_zone tell_zone
begin_assembly_zone-Grows env message now a b =
    elim (Bool-cases (env.zone_accepts (message a) b.next_turn_id 0)) [
      | inl e ↦ rw e (Grows-push b _ refl refl)
      | inr e ↦ rw e (Grows-took_id b _ refl refl)
    ]

begin_assembly_zones-Grows :
    (env : Env) (message : AssemblyId → ZoneMessage) (now : Instant) (as' : List AssemblyId)
    (b : Brain)
    → Grows b (begin_assembly_zones env message now as' b).brain
unfolding begin_assembly_zones
begin_assembly_zones-Grows env message now [] b = Grows-same b b refl refl
begin_assembly_zones-Grows env message now (a ∷ as') b =
    Grows-and_then b (begin_assembly_zones env message now as')
      (begin_assembly_zone env message now a b) (begin_assembly_zone-Grows env message now a b)
      (begin_assembly_zones-Grows env message now as')

dispatch-Grows :
    (env : Env) (action : DomainAction) (b : Brain) → Grows b (dispatch env action b).brain
unfolding dispatch
dispatch-Grows env (DomainAction.start_assemblies as') b =
    Grows-trans b (tick b) _ (Grows-same b (tick b) refl refl)
      (begin_assembly_zones-Grows env become_on_message_for (read_clock env b) as' (tick b))
dispatch-Grows env (DomainAction.stop_assemblies as') b =
    Grows-trans b (tick b) _ (Grows-same b (tick b) refl refl)
      (begin_assembly_zones-Grows env become_off_message_for (read_clock env b) as' (tick b))
dispatch-Grows env _ b = Grows-same b _ refl refl

dispatch_all-Grows :
    (env : Env) (actions : List DomainAction) (b : Brain)
    → Grows b (dispatch_all env actions b).brain
unfolding dispatch_all
dispatch_all-Grows env [] b = Grows-same b b refl refl
dispatch_all-Grows env (action ∷ actions) b =
    Grows-and_then b (dispatch_all env actions) (dispatch env action b)
      (dispatch-Grows env action b) (dispatch_all-Grows env actions)

take_step-Grows :
    (env : Env) (hops : List HopRecord) (last : StepResult) (b : Brain)
    → Grows b (take_step env hops last b).brain
take_step-Grows env hops last b =
    let b' = record b { twin_car = apply_step last.next_state last.modified_ctx b.twin_car } in
    Grows-trans b b' (dispatch_all env (merged_actions hops) b').brain (Grows-same b b' refl refl)
      (dispatch_all-Grows env (merged_actions hops) b')

apply_final-Grows :
    (env : Env) (hops : List HopRecord) (o : Option StepResult) (b : Brain)
    → Grows b (apply_final env hops o b).brain
unfolding apply_final
apply_final-Grows env hops none b = Grows-same b b refl refl
apply_final-Grows env hops (some last) b =
    Grows-and_then b
      (report env b.twin_car.current_state b.twin_car.context.headlamp.state
        last.modified_ctx.headlamp.state)
      (apply_hops env hops last b)
      (Grows-and_then b (take_step env hops last) (emit_records env hops b)
        (emit_records-Grows env hops b) (take_step-Grows env hops last))
      (λ b'. Grows-same b' b' refl refl)

-- A commit only adds entries behind the queue, each of them incomplete, and each under a fresh
-- turn id, in ascending order, as long as the 64-bit counter does not saturate; on an error too.
pub commit_resolved_turn-Grows :
    (env : Env) (resolved : ResolvedTurn) (b : Brain)
    → Grows b (commit_resolved_turn env resolved b).brain
unfolding commit_resolved_turn apply_committed_quiescence
commit_resolved_turn-Grows env resolved b =
    let hops = Turn.commit_resolved_turn b.twin_car.current_state b.twin_car.context resolved in
    apply_final-Grows env hops (final_step hops) b
