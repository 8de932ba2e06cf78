-- ===== src/Brain/Quiet.antt =====
-- What publishes no ledger record in a commit of
-- crates/common/src/twin_runtime/controller/virtual_car_actor.rs.
use sdv_simulation.Prelude.{
  ℕ, List, [], ◌∷◌, ◌++◌, map, filter_map, Option, none, some, ◌≡◌, refl, ap, ◌∙◌, arith, inl, inr,
  Bool-cases,
}
use sdv_simulation.Prelude.Result.{ok, err, Result, Result-cases}
use sdv_simulation.Physics.{Instant}
use sdv_simulation.Modes.{AssemblyId}
use sdv_simulation.Fsm.Machineries.{DomainAction}
use sdv_simulation.Twin.{ZoneMessage}
use sdv_simulation.Actuation.{ActuationCommand, ActuationError, Execution, execute}
use sdv_simulation.Brain.{
  Effect, publish, command, Diagnostic, actuation_failure, Env, Brain, Outcome, and_then, diag,
  tell_zone, tick, read_clock, become_on_message_for, become_off_message_for,
}
use sdv_simulation.Brain.Commit.{
  begin_assembly_zone, begin_assembly_zones, actuated, dispatch, dispatch_all,
}

-- The numbers of the records among the effects, in order.
abbrev pub published_seq : Effect → Option ℕ
published_seq (publish record') = some record'.record_seq
published_seq _ = none

abbrev pub published : List Effect → List ℕ
published = filter_map published_seq

pub published-append : (xs ys : List Effect) → published (xs ++ ys) ≡ published xs ++ published ys
published-append [] ys = refl
published-append (publish r ∷ xs) ys = ap (◌∷◌ r.record_seq) (published-append xs ys)
published-append (_ ∷ xs) ys = published-append xs ys

-- What publishes nothing and leaves the next number as it is.
pub record IsQuiet (b : Brain) (o : Outcome) : Type 0 where
  pub silent : published o.effects ≡ []
  pub same : o.brain.next_record_seq ≡ b.next_record_seq

pub diag-silent : (env : Env) (d : Diagnostic) → published (diag env d) ≡ []
diag-silent env d = ground arith

IsQuiet-and_then :
    (b : Brain) (f : Brain → Outcome) (o : Outcome)
    → IsQuiet b o
    → ((b' : Brain) → IsQuiet b' (f b'))
    → IsQuiet b (and_then f o)
IsQuiet-and_then b f o q k = elim (Result-cases o.result) [
  | inl (u, e) ↦ rw e (record {
    silent =
        published-append o.effects (f o.brain).effects ∙ rw (q.silent, (k o.brain).silent) refl;
    same = (k o.brain).same ∙ q.same;
  })
  | inr (x, e) ↦ rw e (record { silent = q.silent; same = q.same })
]

begin_assembly_zone-IsQuiet :
    (env : Env) (message : AssemblyId → ZoneMessage) (now : Instant) (a : AssemblyId) (b : Brain)
    → IsQuiet b (begin_assembly_zone env message now a b)
unfolding begin_assembly_zone tell_zone
begin_assembly_zone-IsQuiet env message now a b =
    elim (Bool-cases (env.zone_accepts (message a) b.next_turn_id 0)) [
      | inl e ↦ rw e (record { silent = refl; same = refl })
      | inr e ↦ rw e (record { silent = refl; same = refl })
    ]

begin_assembly_zones-IsQuiet :
    (env : Env) (message : AssemblyId → ZoneMessage) (now : Instant) (as' : List AssemblyId)
    (b : Brain)
    → IsQuiet b (begin_assembly_zones env message now as' b)
unfolding begin_assembly_zones
begin_assembly_zones-IsQuiet env message now [] b = record { silent = refl; same = refl }
begin_assembly_zones-IsQuiet env message now (a ∷ as') b =
    IsQuiet-and_then b (begin_assembly_zones env message now as')
      (begin_assembly_zone env message now a b) (begin_assembly_zone-IsQuiet env message now a b)
      (begin_assembly_zones-IsQuiet env message now as')

commands-silent : (cs : List ActuationCommand) → published (map command cs) ≡ []
commands-silent [] = refl
commands-silent (c ∷ cs) = commands-silent cs

result-silent :
    (env : Env) (action : DomainAction) (r : Result ActuationError (Unit {0}))
    → published (elim r [ ok u ↦ [] | err e ↦ diag env (actuation_failure action e) ]) ≡ []
result-silent env action (ok u) = refl
result-silent env action (err e) = diag-silent env _

actuated-IsQuiet :
    (env : Env) (action : DomainAction) (b : Brain) (x : Execution)
    → IsQuiet b (actuated env action b x)
actuated-IsQuiet env action b x = record {
  silent =
      published-append (map command x.commands) _
      ∙ rw (commands-silent x.commands) (result-silent env action x.result);
  same = refl;
}

dispatch-IsQuiet :
    (env : Env) (action : DomainAction) (b : Brain) → IsQuiet b (dispatch env action b)
unfolding dispatch
dispatch-IsQuiet env (DomainAction.log_warning message) b = record {
  silent = diag-silent env _;
  same = refl;
}
dispatch-IsQuiet env (DomainAction.start_assemblies as') b =
    let q =
      begin_assembly_zones-IsQuiet env become_on_message_for (read_clock env b) as' (tick b) in
    record { silent = q.silent; same = q.same }
dispatch-IsQuiet env (DomainAction.stop_assemblies as') b =
    let q =
      begin_assembly_zones-IsQuiet env become_off_message_for (read_clock env b) as' (tick b) in
    record { silent = q.silent; same = q.same }
dispatch-IsQuiet env action b = actuated-IsQuiet env action b (execute action b.actuation_manager)

pub dispatch_all-IsQuiet :
    (env : Env) (actions : List DomainAction) (b : Brain) → IsQuiet b (dispatch_all env actions b)
unfolding dispatch_all
dispatch_all-IsQuiet env [] b = record { silent = refl; same = refl }
dispatch_all-IsQuiet env (action ∷ actions) b =
    IsQuiet-and_then b (dispatch_all env actions) (dispatch env action b)
      (dispatch-IsQuiet env action b) (dispatch_all-IsQuiet env actions)
