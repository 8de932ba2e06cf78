-- ===== src/Published/Faithful.antt =====
-- What the ledger's records keep: crates/common/src/published.rs.
use sdv_simulation.Prelude.{
  ℕ, ◌+◌, ◌-◌, ◌≤◌, List, [], ◌∷◌, filter, filter_map, cons?, ◌≡◌, refl, ap, arith,
}
use sdv_simulation.Physics.{Instant}
use sdv_simulation.Modes.{FsmState}
use sdv_simulation.Zones.{VehicleContext}
use sdv_simulation.Fsm.Machineries.{FsmEvent, DomainAction, is_recorded}
use sdv_simulation.Fsm.{step}
use sdv_simulation.Twin.Identity.{Text}
use sdv_simulation.Turn.Replies.{ZoneReplies}
use sdv_simulation.Turn.{apply_single_hop, apply_internal_hop, apply_external_hop}
use sdv_simulation.Published.{SessionEpoch}
use sdv_simulation.Published
use sdv_simulation.Published.Types.{project_action}
use sdv_simulation.Published.Record

-- From the session's start on, wall stamps are as far apart as the instants that they place, and
-- an instant before the start gets the stamp of the start.
pub project-elapsed :
    (epoch : SessionEpoch) (s t : Instant)
    → s ≤ t
    → (epoch.started_at_instant ≤ s
        → Published.project t epoch ≡ Published.project s epoch + (t - s))
      × (s ≤ epoch.started_at_instant → Published.project s epoch ≡ epoch.started_at_unix)
unfolding Published.project
project-elapsed epoch s t h = (λ k. omega arith, λ k. omega arith)

unrecorded_unpublished :
    (xs : List DomainAction)
    → filter_map project_action (filter is_recorded xs) ≡ filter_map project_action xs
unrecorded_unpublished [] = refl
unrecorded_unpublished (DomainAction.start_assemblies as' ∷ xs) = unrecorded_unpublished xs
unrecorded_unpublished (DomainAction.stop_assemblies as' ∷ xs) = unrecorded_unpublished xs
unrecorded_unpublished (x ∷ xs) = ap (cons? project_action x) (unrecorded_unpublished xs)

-- The published record of a hop lists every action that the hop hands to the brain, in order, but
-- the lifecycle tells to the assemblies.
pub project-actions :
    (s : FsmState) (c : VehicleContext) (e : FsmEvent) (now : Instant) (r : ZoneReplies)
    (identity : Text) (n : ℕ) (epoch : SessionEpoch)
    → let h = apply_single_hop s c e now r in
      (Record.project h.transition_record identity n epoch).actions
      ≡ filter_map project_action h.actions
unfolding Record.project apply_single_hop apply_internal_hop apply_external_hop step
project-actions s c (FsmEvent.internal o) now r identity n epoch =
    unrecorded_unpublished (step s c (FsmEvent.internal o) now).actions
project-actions s c e now r identity n epoch =
    unrecorded_unpublished (apply_external_hop s c e now r).actions
