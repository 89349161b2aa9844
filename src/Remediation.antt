-- ===== src/Remediation.antt =====
-- controllers/hetznerrobotremediation_controller.go: hardware resets of an unhealthy machine.
pub mod Budget
pub mod Allowed
pub mod Ends
use cluster_api_provider_het.Prelude.{
  ℕ, ◌+◌, Bool, true, false, Option, none, some, List, [], ◌∷◌, if◌then◌else◌, ltb, leb,
}
use cluster_api_provider_het.Text.{Text, text, concat, is_empty}
use cluster_api_provider_het.Text.Decimal.{itoa}
use cluster_api_provider_het.Result.{Result, Done, ok, err, map_err, and_then}
use cluster_api_provider_het.Exec.{Exec, pure, throw, lift, wrap, modify, ◌>>=◌, ◌>>◌}
use cluster_api_provider_het.Api.Host.{Host}
use cluster_api_provider_het.Api.Machine.{RobotMachine}
use cluster_api_provider_het.Api.Cluster.{RobotCluster}
use cluster_api_provider_het.Api.Capi.{Machine}
use cluster_api_provider_het.Api.Remediation.{Remediation, Phase}
use cluster_api_provider_het.Policy.{authorize_automated_hardware_reset}
use cluster_api_provider_het.World.{Call, reset_server}
use cluster_api_provider_het.Robot.{robot_reset_server}
use cluster_api_provider_het.Provision.{
  Env, Outcome, done, requeue, requeue_after, wrapped, requeue_after_short, requeue_after_long,
}
use cluster_api_provider_het.Provision.Secrets.{build_robot_client}
use cluster_api_provider_het.Provision.Retry.{five_minutes}

-- The remediation object in memory, and the calls that left, latest first.
pub record Treatment : Type 0 where
  pub remediation : Remediation
  pub calls : List Call

-- The answer to a Get.
pub data Got (A : Type 0) : Type 0 where
  found : A → Got A
  not_found failed : Text → Got A

-- The CAPI Cluster, as far as the reconciler reads it.
pub record OwnerCluster : Type 0 where
  pub name : Text
  pub namespace : Text
  pub infrastructure_ref : Option (Text × Text)

-- What the API server answers.
pub record Answers : Type 0 where
  pub robot_machine : Text → Text → Got RobotMachine
  pub host : Text → Text → Got Host
  pub cluster : Result (Option OwnerCluster)
  pub robot_cluster : Text → Text → Got RobotCluster

abbrev key : Text → Text → Text
key namespace name = concat (namespace ∷ text "/" ∷ name ∷ [])

-- The messages of a Get that failed.
unfoldable pub got : {A : Type 0} → Text → Text → Got A → Result A
got kind key (found a) = ok a
got kind key (not_found e) = err (concat (kind ∷ text " " ∷ key ∷ text " not found: " ∷ e ∷ []))
got kind key (failed e) = err (concat (text "get " ∷ kind ∷ text " " ∷ key ∷ text ": " ∷ e ∷ []))

unfoldable pub host_of : Answers → Machine → RobotMachine → Result Host
unfolding got
host_of a machine hrm =
    if is_empty hrm.status.host_ref
    then err (
        concat (
          text "HetznerRobotMachine "
          ∷ key machine.namespace machine.infrastructure_name
          ∷ text " has no HostRef — machine may not be provisioned yet"
          ∷ []))
    else got (text "HetznerRobotHost") (key machine.namespace hrm.status.host_ref)
        (a.host machine.namespace hrm.status.host_ref)

unfoldable pub robot_cluster_of : Answers → Machine → Option OwnerCluster → Result RobotCluster
unfolding got
robot_cluster_of a machine none =
    err (concat (text "Cluster not found for Machine " ∷ key machine.namespace machine.name ∷ []))
robot_cluster_of a machine (some cluster) = elim (cluster.infrastructure_ref) [
  | none ↦ err (
      concat (
        text "Cluster "
        ∷ key cluster.namespace cluster.name
        ∷ text " has no InfrastructureRef"
        ∷ []))
  | some (namespace, name) ↦
      got (text "HetznerRobotCluster") (key namespace name) (a.robot_cluster namespace name)
]

-- resolveServerAndCluster; the server id is the host's
unfoldable pub resolve_server_and_cluster : Answers → Machine → Result (Host × RobotCluster)
unfolding got host_of robot_cluster_of
resolve_server_and_cluster a machine =
    if is_empty machine.infrastructure_name
    then err (
        concat (
          text "Machine "
          ∷ key machine.namespace machine.name
          ∷ text " has no InfrastructureRef"
          ∷ []))
    else and_then
        (got (text "HetznerRobotMachine") (key machine.namespace machine.infrastructure_name)
          (a.robot_machine machine.namespace machine.infrastructure_name))
        λ hrm. and_then (host_of a machine hrm) λ host.
          and_then (map_err (wrapped (text "get Cluster from Machine metadata") []) a.cluster)
            λ cluster. and_then (robot_cluster_of a machine cluster) λ hrc. ok (host, hrc)

-- getTimeout
unfoldable pub get_timeout : Remediation → ℕ
get_timeout r = if ltb 0 r.timeout then r.timeout else five_minutes

-- The reset of one attempt, and the count that is kept of it.
unfoldable pub reset_attempt : Env → Host → ℕ → Exec Treatment Outcome
unfolding get_timeout
reset_attempt env host count = do
  modify (λ t. record t { calls = reset_server host.spec.server_id ∷ t.calls })
  wrap (wrapped (text "hardware reset server ") (itoa host.spec.server_id))
      (lift (robot_reset_server env.http host.spec.server_id))
  modify (λ t. record t {
    remediation = record t.remediation {
      phase = Phase.running;
      last_remediated = some env.now;
      retry_count = count;
    };
  })
  λ t. (ok (requeue_after (get_timeout t.remediation)), t)

-- Behind the policy: the Robot client, then the reset.
unfoldable pub authorized_reset : Env → Host → RobotCluster → ℕ → Done → Exec Treatment Outcome
unfolding reset_attempt
authorized_reset env host hrc count (err e) = pure (requeue_after requeue_after_long)
authorized_reset env host hrc count (ok u) = do
  lift (map_err (wrapped (text "build robot client") []) (build_robot_client env hrc))
  reset_attempt env host count

unfoldable pub reconcile_initial : Env → Host → RobotCluster → Exec Treatment Outcome
unfolding authorized_reset
reconcile_initial env host hrc =
    authorized_reset env host hrc 1 (authorize_automated_hardware_reset (some host))

unfoldable pub reconcile_running : Exec Treatment Outcome
reconcile_running = do
  modify (λ t. record t { remediation = record t.remediation { phase = Phase.waiting } })
  pure requeue

unfoldable pub reconcile_waiting : Env → Host → RobotCluster → Exec Treatment Outcome
unfolding authorized_reset
reconcile_waiting env host hrc t =
    (if leb t.remediation.retry_limit t.remediation.retry_count
        then (do
          modify (λ u. record u { remediation = record u.remediation { phase = Phase.deleting } })
          pure done)
        else authorized_reset env host hrc (t.remediation.retry_count + 1)
            (authorize_automated_hardware_reset (some host)))
      t

-- The `switch` on the phase.
unfoldable pub run_phase : Env → Host × RobotCluster → Phase → Exec Treatment Outcome
unfolding reconcile_initial reconcile_running reconcile_waiting
run_phase env (host, hrc) Phase.initial = reconcile_initial env host hrc
run_phase env (host, hrc) Phase.running = reconcile_running
run_phase env (host, hrc) Phase.waiting = reconcile_waiting env host hrc
run_phase env (host, hrc) _ = pure done

abbrev pub is_deleting : Phase → Bool
is_deleting Phase.deleting = true
is_deleting _ = false

-- Reconcile of a remediation whose owner is known and whose patch helper is there.
unfoldable pub reconcile_remediation : Env → Answers → Machine → Exec Treatment Outcome
unfolding run_phase
reconcile_remediation env a machine t =
    (if is_deleting t.remediation.phase then pure done else do
      target ← lift (
          map_err (wrapped (text "resolve server and cluster") [])
            (resolve_server_and_cluster a machine))
      run_phase env target t.remediation.phase)
      t

-- Reconcile, from what the API server answers about the remediation and its owner, and the error of
-- the patch helper if there is one. The deferred patch's error is logged only.
unfoldable pub reconcile_request :
    Env
    → Answers
    → Result (Option Remediation)
    → Result (Option Machine)
    → Option Text
    → Exec Treatment Outcome
unfolding reconcile_remediation
reconcile_request env a (err e) owner helper t = (err e, t)
reconcile_request env a (ok none) owner helper t = (ok done, t)
reconcile_request env a (ok (some r)) (err e) helper t =
    (err (wrapped (text "get owner Machine") [] e), t)
reconcile_request env a (ok (some r)) (ok none) helper t =
    (ok (requeue_after requeue_after_short), t)
reconcile_request env a (ok (some r)) (ok (some machine)) (some e) t =
    (err (wrapped (text "failed to init patch helper") [] e), t)
reconcile_request env a (ok (some r)) (ok (some machine)) none t =
    reconcile_remediation env a machine (record t { remediation = r })
