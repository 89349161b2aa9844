-- ===== src/ClusterController.antt =====
-- controllers/hetznerrobotcluster_controller.go: when a cluster is ready, and when it may go.
pub mod Released
use cluster_api_provider_het.Prelude.{
  ℕ, Bool, true, false, Option, none, some, List, [], ◌∷◌, if◌then◌else◌,
}
use cluster_api_provider_het.Text.{Text, text, text_eq, concat, is_empty}
use cluster_api_provider_het.Result.{Result, ok, err}
use cluster_api_provider_het.Api.Machine.{RobotMachine, ReadyCondition, is_false, Severity}
use cluster_api_provider_het.Api.Cluster.{RobotCluster}
use cluster_api_provider_het.Provision.{Outcome, done, requeue_after, requeue_after_short}

unfoldable pub filter_machines_by_cluster : List RobotMachine → Text → List RobotMachine
filter_machines_by_cluster [] name = []
filter_machines_by_cluster (m ∷ l) name =
    let rest = filter_machines_by_cluster l name in
    if text_eq m.cluster_name name then m ∷ rest else rest

-- reconcileNormal
unfoldable pub reconcile_ready : RobotCluster → Outcome × RobotCluster
reconcile_ready hrc =
    if is_empty hrc.control_plane_endpoint.host
    then (
      requeue_after requeue_after_short,
      record hrc {
        ready_condition = some (
            is_false (text "WaitingForControlPlaneEndpoint") Severity.info
              (text "Control plane endpoint not yet available"));
      },
    )
    else (
      done,
      record hrc {
        ready = true;
        initialization = some true;
        ready_condition = some ReadyCondition.is_true;
      },
    )

abbrev let_go : List RobotMachine → RobotCluster → Outcome × RobotCluster
let_go [] hrc = (done, record hrc { has_finalizer = false })
let_go (m ∷ l) hrc = (requeue_after requeue_after_short, hrc)

-- reconcileDelete, with the machines that the List of the namespace gives
unfoldable pub reconcile_gone :
    Result (List RobotMachine) → RobotCluster → Result Outcome × RobotCluster
unfolding filter_machines_by_cluster
reconcile_gone (err e) hrc = (err e, hrc)
reconcile_gone (ok machines) hrc =
    let (outcome, hrc') = let_go (filter_machines_by_cluster machines hrc.name) hrc in
    (ok outcome, hrc')

abbrev fine : Outcome × RobotCluster → Result Outcome × RobotCluster
fine (outcome, hrc) = (ok outcome, hrc)

-- Behind the patch helper; the deferred patch's error is logged only.
unfoldable pub reconcile_kept :
    (Text → Result (List RobotMachine)) → RobotCluster → Result Outcome × RobotCluster
unfolding reconcile_gone reconcile_ready
reconcile_kept list hrc =
    if hrc.deleting
    then reconcile_gone (list hrc.namespace) hrc
    else if hrc.has_finalizer
    then fine (reconcile_ready hrc)
    else (ok done, record hrc { has_finalizer = true })

abbrev with_helper :
    (Text → Result (List RobotMachine)) → Option Text → RobotCluster → Result Outcome × RobotCluster
with_helper list none hrc = reconcile_kept list hrc
with_helper list (some e) hrc = (err (concat (text "failed to init patch helper: " ∷ e ∷ [])), hrc)

-- Reconcile of a cluster that was fetched; `owner` says whether the owning Cluster is paused.
unfoldable pub reconcile_cluster :
    (Text → Result (List RobotMachine))
    → Option Text
    → Result (Option Bool)
    → RobotCluster
    → Result Outcome × RobotCluster
unfolding reconcile_kept
reconcile_cluster list helper (err e) hrc = (err e, hrc)
reconcile_cluster list helper (ok none) hrc = (ok (requeue_after requeue_after_short), hrc)
reconcile_cluster list helper (ok (some true)) hrc = (ok done, hrc)
reconcile_cluster list helper (ok (some false)) hrc = with_helper list helper hrc

-- Reconcile, with the answers to the Get and to the deferred patch, whose error is logged only; it
-- gives the cluster that the API server holds afterwards.
unfoldable pub reconcile_cluster_request :
    (Text → Result (List RobotMachine))
    → Option Text
    → Result (Option Bool)
    → (RobotCluster → Option Text)
    → Result (Option RobotCluster)
    → Result Outcome × Option RobotCluster
unfolding reconcile_cluster
reconcile_cluster_request list helper owner patch (err e) = (err e, none)
reconcile_cluster_request list helper owner patch (ok none) = (ok done, none)
reconcile_cluster_request list helper owner patch (ok (some hrc)) =
    let (r, hrc') = reconcile_cluster list helper owner hrc in
    (r, some (elim (patch hrc') [ some e ↦ hrc | none ↦ hrc' ]))
