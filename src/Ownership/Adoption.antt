-- ===== src/Ownership/Adoption.antt =====
-- Ownership of hosts whose machines were provisioned before the controller kept host status:
-- backfillProvisionedHostClaim, resolveProvisionedAdoptionHost and ensureProvisionedHostStatus.
use cluster_api_provider_het.Prelude.{
  ℕ, Bool, true, false, Option, none, some, List, [], ◌∷◌, map, ◌&&◌, ◌==◌, if◌then◌else◌, not, map,
}
use cluster_api_provider_het.Text.{Text, text, concat, is_empty, sort_strings, join}
use cluster_api_provider_het.Text.Decimal.{itoa}
use cluster_api_provider_het.Result.{Result, ok, err, map_err}
use cluster_api_provider_het.Exec.{Exec, pure, throw, lift, wrap, ◌>>=◌, ◌>>◌}
use cluster_api_provider_het.Api.Host.{Host, HostState, MachineReference}
use cluster_api_provider_het.Api.Machine.{RobotMachine}
use cluster_api_provider_het.World.{World, Kube, get_host, list_hosts, patch_host}
use cluster_api_provider_het.Ownership.{
  machine_reference_for, machine_reference_matches, set_host_consumer_ref, blocking_host_owner_ref,
  robot_server_id_from_provider_id, claimed_by,
}
use cluster_api_provider_het.Ownership.Claim.{named, get_error, set_host_ref}

-- The hosts of the list that are the server `id`.
unfoldable pub hosts_of_server : ℕ → List Host → List Host
hosts_of_server id [] = []
hosts_of_server id (h ∷ l) =
    let rest = hosts_of_server id l in if h.spec.server_id == id then h ∷ rest else rest

-- Exactly one host may be the server.
unfoldable pub only_host : ℕ → List Host → Result Host
only_host id [] =
    err (concat (text "no HetznerRobotHost matches providerID serverID=" ∷ itoa id ∷ []))
only_host id (h ∷ []) = ok h
only_host id (h ∷ g ∷ l) =
    let names = sort_strings (map (λ (m : Host). m.name) (h ∷ g ∷ l)) in
    err (
      concat (
        text "multiple HetznerRobotHosts match providerID serverID="
        ∷ itoa id
        ∷ text ": "
        ∷ join (text ", ") names
        ∷ []))

unfoldable pub adoption_host_by_spec :
    Kube → RobotMachine → ℕ → Option Text → Option Text → Exec World Host
unfolding hosts_of_server only_host
adoption_host_by_spec k hrm id (some name) selector =
    wrap (λ e. concat (text "get hostRef " ∷ name ∷ text " for provisioned adoption: " ∷ e ∷ []))
      (get_host k hrm.namespace name)
adoption_host_by_spec k hrm id none none =
    throw
      (text "spec.hostRef or spec.hostSelector is required to backfill provisioned host ownership")
adoption_host_by_spec k hrm id none (some selector) = do
  p ← lift (
      map_err (λ e. concat (text "invalid hostSelector for provisioned adoption: " ∷ e ∷ []))
        (k.label_selector selector))
  l ←
      wrap (λ e. concat (text "list hosts by selector for provisioned adoption: " ∷ e ∷ []))
        (list_hosts k hrm.namespace p)
  lift (only_host id (hosts_of_server id l))

unfoldable pub resolve_provisioned_adoption_host : Kube → RobotMachine → ℕ → Exec World Host
unfolding adoption_host_by_spec
resolve_provisioned_adoption_host k hrm id =
    adoption_host_by_spec k hrm id (named hrm.spec.host_ref) hrm.spec.host_selector

abbrev is_claimed_state : HostState → Bool
is_claimed_state HostState.claimed = true
is_claimed_state _ = false

abbrev is_provisioned_state : HostState → Bool
is_provisioned_state HostState.provisioned = true
is_provisioned_state _ = false

-- The host after its adoption.
unfoldable pub adopted_host : RobotMachine → Host → Host
unfolding set_host_consumer_ref machine_reference_for
adopted_host hrm host =
    let owned = set_host_consumer_ref host (machine_reference_for hrm) in
    record owned {
      status = record (owned.status) {
        state = HostState.provisioned;
        dirty_reason = [];
        error_message = [];
      };
    }

-- The guards of backfillProvisionedHostClaim on the resolved host.
unfoldable pub adoption_guard : Kube → RobotMachine → ℕ → Host → Result (Unit {0})
unfolding blocking_host_owner_ref
adoption_guard k hrm id host =
    if host.spec.maintenance_mode
    then err (
        concat
          (text "host " ∷ host.name ∷ text " is in maintenanceMode and cannot be adopted" ∷ []))
    else if not (host.spec.server_id == id)
    then err (
        concat (
          text "host "
          ∷ host.name
          ∷ text " serverID="
          ∷ itoa host.spec.server_id
          ∷ text " does not match HRM providerID serverID="
          ∷ itoa id
          ∷ []))
    else elim (blocking_host_owner_ref k host hrm) [
      | err e ↦ err e
      | ok (some ref) ↦ err (
          concat (
            text "host "
            ∷ host.name
            ∷ text " is claimed by "
            ∷ ref.namespace
            ∷ text "/"
            ∷ ref.name
            ∷ []))
      | ok none ↦
          if is_claimed_state host.status.state
          then err (concat (text "host " ∷ host.name ∷ text " is Claimed without consumerRef" ∷ []))
          else ok tt
    ]

unfoldable pub adopt_host : Kube → RobotMachine → ℕ → Exec World Bool
unfolding resolve_provisioned_adoption_host adoption_guard adopted_host set_host_ref
adopt_host k hrm id = do
  host ← resolve_provisioned_adoption_host k hrm id
  lift (adoption_guard k hrm id host)
  patch_host k (text "init HRH patch helper for provisioned adoption")
      (concat (text "backfill host " ∷ host.name ∷ text " provisioned ownership" ∷ []))
      (adopted_host hrm host)
  set_host_ref host.name
  pure true

unfoldable pub backfill_provisioned_host_claim : Kube → Exec World Bool
unfolding adopt_host
backfill_provisioned_host_claim k w =
    let hrm = w.machine in
    (if is_empty hrm.status.host_ref
        then elim (robot_server_id_from_provider_id hrm.spec.provider_id) [
          | none ↦ throw (text "providerID is required to backfill provisioned host ownership")
          | some id ↦ adopt_host k hrm id
        ]
        else pure false)
      w

-- The host that ensureProvisionedHostStatus writes.
unfoldable pub provisioned_host : RobotMachine → Host → Host
unfolding set_host_consumer_ref machine_reference_for
provisioned_host hrm host =
    let owned = set_host_consumer_ref host (machine_reference_for hrm) in
    record owned {
      status = record (owned.status) { state = HostState.provisioned; error_message = [] };
    }

unfoldable pub is_settled : RobotMachine → Host → Bool
unfolding machine_reference_matches
is_settled hrm host =
    is_provisioned_state host.status.state
    && machine_reference_matches host.status.consumer_ref hrm
    && machine_reference_matches host.status.machine_ref hrm

unfoldable pub settle_host :
    Kube → RobotMachine → Host → Option MachineReference → Exec World (Unit {0})
unfolding provisioned_host is_settled
settle_host k hrm host (some ref) = throw (claimed_by host (some ref) hrm)
settle_host k hrm host none =
    if is_settled hrm host
    then pure tt
    else patch_host k (text "init HRH patch helper for provisioned status")
        (concat (text "patch host " ∷ host.name ∷ text " provisioned status" ∷ []))
        (provisioned_host hrm host)

unfoldable pub ensure_provisioned_host_status : Kube → Exec World (Unit {0})
unfolding settle_host blocking_host_owner_ref
ensure_provisioned_host_status k w =
    let hrm = w.machine in
    (if is_empty hrm.status.host_ref then pure tt else do
      host ←
          wrap (get_error (text "get provisioned host ") hrm.status.host_ref)
            (get_host k hrm.namespace hrm.status.host_ref)
      owner ← lift (blocking_host_owner_ref k host hrm)
      settle_host k hrm host owner)
      w
