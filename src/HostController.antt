-- ===== src/HostController.antt =====
-- controllers/hetznerrobothost_controller.go: the life of a host object.
pub mod Claimed
use cluster_api_provider_het.Prelude.{
  ℕ, Bool, true, false, ◌&&◌, ◌||◌, ◌==◌, Option, none, some, List, [], ◌∷◌, ◌++◌, if◌then◌else◌,
  is_some, not, ltb,
}
use cluster_api_provider_het.Text.{Text, text, text_eq, concat, is_empty, trim_suffix}
use cluster_api_provider_het.Result.{Result, Done, ok, err}
use cluster_api_provider_het.Api.Host.{Host, HostState}
use cluster_api_provider_het.Api.Cluster.{RobotCluster}
use cluster_api_provider_het.Robot.{Http, ServerInfo, robot_get_server}
use cluster_api_provider_het.Provision.{Env, Outcome, done, requeue_after, requeue_after_short}
use cluster_api_provider_het.Provision.Secrets.{secret_namespace}

-- The clusters that a List gives, each with its cluster-name label.
abbrev pub Clusters : Type 0
Clusters = Text → Result (List (Text × RobotCluster))

unfoldable pub first_cluster : Text → List (Text × RobotCluster) → Option RobotCluster
first_cluster name [] = none
first_cluster name ((label, hrc) ∷ l) =
    if text_eq label name then some hrc else first_cluster name l

-- The credentials of a cluster.
unfoldable pub read_credentials : Env → RobotCluster → Done
read_credentials env hrc =
    elim (env.get_secret (secret_namespace hrc hrc.robot_secret_ref) hrc.robot_secret_ref.name) [
      | ok d ↦ ok tt
      | err e ↦ err (concat (text "get robot credentials secret: " ∷ e ∷ []))
    ]

-- getRobotClient; the client keeps only its credentials
unfoldable pub get_robot_client : Env → Clusters → Host → Done
unfolding first_cluster read_credentials
get_robot_client env clusters host =
    if is_empty host.cluster_name
    then err (concat (text "host " ∷ host.name ∷ text " has no cluster-name label" ∷ []))
    else elim (clusters host.namespace) [
      | err e ↦ err (concat (text "list HetznerRobotClusters: " ∷ e ∷ []))
      | ok l ↦ elim (first_cluster host.cluster_name l) [
        | none ↦
            err (concat (text "no HetznerRobotCluster found for cluster " ∷ host.cluster_name ∷ []))
        | some hrc ↦ read_credentials env hrc
      ]
    ]

-- Hetzner returns "2a01:4f8:2b04:201::"; the field holds the /64.
unfoldable pub to_cidr : Text → Text
to_cidr net = trim_suffix net (text "::") ++ text "::/64"

-- `value` where the field is empty and the value is not.
unfoldable pub fill : Text → Text → Text → Text
fill field answer value = if is_empty field && not (is_empty answer) then value else field

unfoldable pub with_server_info : ServerInfo → Host → Host
unfolding to_cidr fill
with_server_info info host = record host {
  spec = record host.spec {
    server_ip = fill host.spec.server_ip info.server_ip info.server_ip;
    server_ipv6_net =
        fill host.spec.server_ipv6_net info.server_ipv6_net (to_cidr info.server_ipv6_net);
  };
}

abbrev wants_detection : Host → Bool
wants_detection host =
    (is_empty host.spec.server_ip || is_empty host.spec.server_ipv6_net)
    && ltb 0 host.spec.server_id

-- "Auto-detect serverIP and serverIPv6Net"; errors are logged only
unfoldable pub auto_detect : Env → Clusters → Host → Host
unfolding with_server_info get_robot_client
auto_detect env clusters host =
    if wants_detection host
    then elim (get_robot_client env clusters host) [
      | err e ↦ host
      | ok u ↦ elim (robot_get_server env.http host.spec.server_id) [
        | err e ↦ host
        | ok info ↦ with_server_info info host
      ]
    ]
    else host

abbrev start_state : HostState → HostState
start_state HostState.unset = HostState.available
start_state s = s

unfoldable pub initialised : Host → Host
initialised host = record host {
  status = record host.status { state = start_state host.status.state };
}

-- The part on the deletion timestamp.
unfoldable pub finish : Host → Outcome × Host
finish host =
    if host.deleting
    then (if is_some host.status.consumer_ref || is_some host.status.machine_ref
        then (requeue_after requeue_after_short, host)
        else (done, record host { has_finalizer = false }))
    else (done, host)

-- Reconcile of a host that was fetched and whose patch helper is there.
unfoldable pub reconcile_host : Env → Clusters → Host → Outcome × Host
unfolding initialised auto_detect finish
reconcile_host env clusters host =
    if host.has_finalizer
    then finish (auto_detect env clusters (initialised host))
    else (done, record host { has_finalizer = true })

-- The host that the API server holds behind the deferred patch, whose error is logged only.
unfoldable pub patched_host : (Host → Option Text) → Host → Host → Host
patched_host patch_error stored host = elim (patch_error host) [ some e ↦ stored | none ↦ host ]

-- Reconcile, with the answers to the Get, to the request for a patch helper and to the patch; it gives
-- the host that the API server holds afterwards.
unfoldable pub reconcile_host_request :
    Env
    → Clusters
    → Result (Option Host)
    → Option Text
    → (Host → Option Text)
    → Result Outcome × Option Host
unfolding reconcile_host patched_host
reconcile_host_request env clusters (err e) helper patch = (err e, none)
reconcile_host_request env clusters (ok none) helper patch = (ok done, none)
reconcile_host_request env clusters (ok (some host)) (some e) patch = (err e, some host)
reconcile_host_request env clusters (ok (some host)) none patch =
    let (outcome, host') = reconcile_host env clusters host in
    (ok outcome, some (patched_host patch host host'))
