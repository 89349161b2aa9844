-- ===== src/Ownership.antt =====
-- controllers/hetznerrobotmachine_host.go: who owns a host. The references of a host to its
-- machine, and the operations that every claim, adoption and release is built from.
pub mod Claim
pub mod Adoption
pub mod Release
pub mod Hardware
pub mod References
pub mod Claimed
pub mod Within
pub mod Kept
pub mod Adopted
pub mod ProviderId
use cluster_api_provider_het.Prelude.{
  ℕ, Bool, true, false, Option, none, some, List, [], ◌∷◌, ◌&&◌, ◌||◌, ◌==◌, if◌then◌else◌, not,
}
use cluster_api_provider_het.Text.{Text, text, text_eq, concat, is_empty, has_prefix, trim_prefix}
use cluster_api_provider_het.Text.Decimal.{ℤ, pos, negsuc, atoi}
use cluster_api_provider_het.Result.{Result, ok, err}
use cluster_api_provider_het.Exec.{Exec, pure, throw, ◌>>=◌, ◌>>◌}
use cluster_api_provider_het.Api.Host.{Host, MachineReference}
use cluster_api_provider_het.Api.Machine.{RobotMachine}
use cluster_api_provider_het.World.{World, Kube, Lookup, patch_host}

unfoldable pub machine_reference_for : RobotMachine → MachineReference
machine_reference_for hrm = record { name = hrm.name; namespace = hrm.namespace }

unfoldable pub machine_reference_matches : Option MachineReference → RobotMachine → Bool
machine_reference_matches none hrm = false
machine_reference_matches (some ref) hrm =
    text_eq ref.name hrm.name && text_eq ref.namespace hrm.namespace

unfoldable pub host_is_claimed_by : Host → RobotMachine → Bool
unfolding machine_reference_matches
host_is_claimed_by host hrm =
    machine_reference_matches host.status.consumer_ref hrm
    || machine_reference_matches host.status.machine_ref hrm

-- consumerRef, or the legacy machineRef where there is no consumerRef
abbrev either_ref : Option MachineReference → Option MachineReference → Option MachineReference
either_ref (some ref) legacy = some ref
either_ref none legacy = legacy

unfoldable pub current_host_consumer_ref : Host → Option MachineReference
current_host_consumer_ref host = either_ref host.status.consumer_ref host.status.machine_ref

unfoldable pub set_host_consumer_ref : Host → MachineReference → Host
set_host_consumer_ref host ref = record host {
  status = record host.status { consumer_ref = some ref; machine_ref = some ref };
}

unfoldable pub clear_host_consumer_ref : Host → Host
clear_host_consumer_ref host = record host {
  status = record host.status { consumer_ref = none; machine_ref = none };
}

-- "host %s is claimed by %s/%s, not %s/%s"
pub claimed_by : Host → Option MachineReference → RobotMachine → Text
claimed_by host none hrm = []
claimed_by host (some ref) hrm = concat (
    text "host "
    ∷ host.name
    ∷ text " is claimed by "
    ∷ ref.namespace
    ∷ text "/"
    ∷ ref.name
    ∷ text ", not "
    ∷ hrm.namespace
    ∷ text "/"
    ∷ hrm.name
    ∷ [])

abbrev pub is_foreign : Option MachineReference → RobotMachine → Bool
is_foreign none hrm = false
is_foreign (some ref) hrm = not (machine_reference_matches (some ref) hrm)

-- ensureHostConsumerRef; it returns the host as it stands behind the pointer afterwards.
unfoldable pub ensure_host_consumer_ref : Kube → Host → RobotMachine → Exec World Host
unfolding machine_reference_matches current_host_consumer_ref set_host_consumer_ref
    machine_reference_for
ensure_host_consumer_ref k host hrm =
    if is_foreign (current_host_consumer_ref host) hrm
    then throw (claimed_by host (current_host_consumer_ref host) hrm)
    else if machine_reference_matches host.status.consumer_ref hrm
        && machine_reference_matches host.status.machine_ref hrm
    then pure host
    else do
      let host' = set_host_consumer_ref host (machine_reference_for hrm)
      patch_host k (text "init HRH patch helper for consumerRef backfill")
          (concat (text "backfill host " ∷ host.name ∷ text " consumerRef" ∷ [])) host'
      pure host'

abbrev pub positive_id : Option ℤ → Option ℕ
positive_id none = none
positive_id (some (pos n)) = if n == 0 then none else some n
positive_id (some (negsuc n)) = none

unfoldable pub robot_server_id_from_provider_id : Option Text → Option ℕ
robot_server_id_from_provider_id none = none
robot_server_id_from_provider_id (some raw) =
    if has_prefix raw (text "hetzner-robot://")
    then positive_id (atoi (trim_prefix raw (text "hetzner-robot://")))
    else none

abbrev points_at : Option ℕ → ℕ → Bool
points_at none server_id = false
points_at (some n) server_id = server_id == n

-- The answer about the machine that a legacy reference names.
unfoldable pub legacy_owner : Lookup → MachineReference → Text → Result (Option MachineReference)
legacy_owner Lookup.found ref message = ok (some ref)
legacy_owner Lookup.not_found ref message = ok none
legacy_owner (Lookup.failed e) ref message = err (concat (message ∷ text ": " ∷ e ∷ []))

-- The part of blockingHostOwnerRef on the legacy reference.
unfoldable pub blocking_legacy_ref :
    Kube → Host → RobotMachine → Option MachineReference → Result (Option MachineReference)
unfolding machine_reference_matches legacy_owner
blocking_legacy_ref k host hrm none = ok none
blocking_legacy_ref k host hrm (some ref) =
    let namespace = if is_empty ref.namespace then host.namespace else ref.namespace in
    if machine_reference_matches (some ref) hrm
    then ok none
    else if points_at (robot_server_id_from_provider_id hrm.spec.provider_id) host.spec.server_id
    then legacy_owner (k.lookup_machine namespace ref.name) ref
        (concat (text "get legacy host owner " ∷ namespace ∷ text "/" ∷ ref.name ∷ []))
    else ok (some ref)

-- blockingHostOwnerRef: `some ref` when another machine owns the host
unfoldable pub blocking_host_owner_ref :
    Kube → Host → RobotMachine → Result (Option MachineReference)
unfolding blocking_legacy_ref
blocking_host_owner_ref k host hrm = elim host.status.consumer_ref [
  | some ref ↦ if machine_reference_matches (some ref) hrm then ok none else ok (some ref)
  | none ↦ blocking_legacy_ref k host hrm host.status.machine_ref
]
