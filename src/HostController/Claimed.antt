-- ===== src/HostController/Claimed.antt =====
-- What a reconcile of a host keeps, and when it lets the host go.
use cluster_api_provider_het.Prelude.{◌≡◌, ◌⊎◌, true, not, ◌&&◌, ◌||◌, is_some, arith, inl, inr}
use cluster_api_provider_het.Text.{Text, is_empty}
use cluster_api_provider_het.Result.{Result-cases}
use cluster_api_provider_het.Api.Host.{Host}
use cluster_api_provider_het.Robot.{robot_get_server}
use cluster_api_provider_het.Provision.{Env}
use cluster_api_provider_het.HostController.{
  Clusters, get_robot_client, with_server_info, fill, auto_detect, initialised, finish,
  reconcile_host,
}

-- The parts of a host that detection leaves alone.
abbrev Detected : Host → Host → Type 0
Detected h g =
    (g.has_finalizer ≡ h.has_finalizer)
    × (g.deleting ≡ h.deleting)
    × (g.status ≡ h.status)
    × (g.spec.server_id ≡ h.spec.server_id)

detect-kept : (env : Env) (clusters : Clusters) (h : Host) → Detected h (auto_detect env clusters h)
unfolding auto_detect with_server_info
detect-kept env clusters h = elim (Result-cases (get_robot_client env clusters h)) [
  | inr (e, bad) ↦ ground arith
  | inl (u, good) ↦ elim (Result-cases (robot_get_server env.http h.spec.server_id)) [
    | inr (e, bad) ↦ ground arith
    | inl (info, there) ↦ ground arith
  ]
]

-- A host that has its finalizer loses it exactly when it is being deleted and neither of its
-- references names a machine; the references stay as they are.
pub reconcile_host-lets_go :
    (env : Env) (clusters : Clusters) (h : Host)
    → h.has_finalizer ≡ true
    → ((reconcile_host env clusters h).1.has_finalizer
        ≡ not (h.deleting && not (is_some h.status.consumer_ref || is_some h.status.machine_ref)))
      × ((reconcile_host env clusters h).1.status.consumer_ref ≡ h.status.consumer_ref)
      × ((reconcile_host env clusters h).1.status.machine_ref ≡ h.status.machine_ref)
unfolding reconcile_host finish initialised
reconcile_host-lets_go env clusters h kept =
    ground (arith, detect-kept env clusters (initialised h))

-- A field that is replaced was empty.
abbrev Kept : (Host → Text) → Host → Host → Type 0
Kept field h g = (is_empty (field h) ≡ true) ⊎ (field g ≡ field h)

detect-Kept :
    (env : Env) (clusters : Clusters) (h : Host)
    → Kept (λ g. g.spec.server_ip) h (auto_detect env clusters h)
      × Kept (λ g. g.spec.server_ipv6_net) h (auto_detect env clusters h)
unfolding auto_detect with_server_info fill
detect-Kept env clusters h = elim (Result-cases (get_robot_client env clusters h)) [
  | inr (e, bad) ↦ ground arith
  | inl (u, good) ↦ elim (Result-cases (robot_get_server env.http h.spec.server_id)) [
    | inr (e, bad) ↦ ground arith
    | inl (info, there) ↦ ground arith
  ]
]

-- An address or a network that the host's spec has already is never replaced by a detected one.
pub reconcile_host-keeps_addresses :
    (env : Env) (clusters : Clusters) (h : Host)
    → ((is_empty h.spec.server_ip ≡ true)
        ⊎ ((reconcile_host env clusters h).1.spec.server_ip ≡ h.spec.server_ip))
      × ((is_empty h.spec.server_ipv6_net ≡ true)
          ⊎ ((reconcile_host env clusters h).1.spec.server_ipv6_net ≡ h.spec.server_ipv6_net))
unfolding reconcile_host finish initialised
reconcile_host-keeps_addresses env clusters h =
    ground (arith, detect-Kept env clusters (initialised h))
