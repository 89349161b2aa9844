-- ===== src/ClusterController/Released.antt =====
-- When a cluster that is deleted is let go.
use cluster_api_provider_het.Prelude.{
  ◌≡◌, ◌≢◌, ◌↔◌, ◌⊎◌, refl, true, false, List, [], ◌∷◌, arith, inl, inr,
}
use cluster_api_provider_het.Text.{Text}
use cluster_api_provider_het.Text.Equal.{text_eq_iff}
use cluster_api_provider_het.Result.{Result, ok}
use cluster_api_provider_het.Api.Machine.{RobotMachine}
use cluster_api_provider_het.Api.Cluster.{RobotCluster}
use cluster_api_provider_het.Provision.{Outcome, done, requeue_after, requeue_after_short}
use cluster_api_provider_het.ClusterController.{filter_machines_by_cluster, reconcile_gone}

List-cases : {A : Type 0} (l : List A) → (l ≡ []) ⊎ ((a : A) × (r : List A) × (l ≡ a ∷ r))
List-cases [] = inl refl
List-cases (a ∷ r) = inr (a, r, refl)

-- No machine of the list carries the cluster's name.
pub NoneOf : Text → List RobotMachine → Type 0
NoneOf name [] = Unit
NoneOf name (m ∷ l) = (m.cluster_name ≢ name) × NoneOf name l

filter-NoneOf :
    (name : Text) (l : List RobotMachine) → (filter_machines_by_cluster l name ≡ []) ↔ NoneOf name l
unfolding filter_machines_by_cluster NoneOf
filter-NoneOf name [] = (λ p. tt, λ p. refl)
filter-NoneOf name (m ∷ l) = ground (arith, filter-NoneOf name l, text_eq_iff m.cluster_name name)

-- What becomes of a cluster whose machines are the given ones.
abbrev pub Ends : List RobotMachine → RobotCluster → Result Outcome × RobotCluster → Type 0
Ends machines hrc end =
    ((end.1.has_finalizer ≡ false) ↔ NoneOf hrc.name machines)
    × ((end ≡ (ok done, record hrc { has_finalizer = false }))
        ⊎ (end ≡ (ok (requeue_after requeue_after_short), hrc)))

-- The deletion of a cluster lets go of its finalizer exactly when no machine of its namespace
-- carries its name; it then is done, and else it leaves the cluster as it is and comes back after
-- the short delay.
pub reconcile_gone-Ends :
    (machines : List RobotMachine) (hrc : RobotCluster)
    → hrc.has_finalizer ≡ true
    → Ends machines hrc (reconcile_gone (ok machines) hrc)
unfolding reconcile_gone
reconcile_gone-Ends machines hrc f =
    elim (List-cases (filter_machines_by_cluster machines hrc.name)) [
      | inl e ↦ ground (arith, filter-NoneOf hrc.name machines)
      | inr (m, l, e) ↦ ground (arith, filter-NoneOf hrc.name machines)
    ]
