-- ===== src/Provision/Watch.antt =====
-- controllers/hetznerrobotmachine_controller.go: the machines that a host release wakes.
pub mod Woken
use cluster_api_provider_het.Prelude.{Bool, true, false, ◌&&◌, List, [], ◌∷◌, if◌then◌else◌}
use cluster_api_provider_het.Text.{Text, text, text_eq}
use cluster_api_provider_het.Result.{Result, ok, err}
use cluster_api_provider_het.Api.Machine.{RobotMachine}
use cluster_api_provider_het.Api.Release.{HostRelease}

pub record OwnerReference : Type 0 where
  pub api_version : Text
  pub kind : Text
  pub name : Text
  pub uid : Text

-- A machine and its owner references.
abbrev pub Owned : Type 0
Owned = RobotMachine × List OwnerReference

-- The two tests on an owner reference; `version` is clusterv1.GroupVersion.String().
unfoldable pub names_released : Text → HostRelease → OwnerReference → Bool
names_released version release o =
    text_eq o.api_version version
    && text_eq o.kind (text "Machine")
    && text_eq o.name release.machine_ref.name
    && text_eq o.uid release.machine_ref.uid

-- The loop on the owner references, which ends at the first that passes.
unfoldable pub has_released_owner : Text → HostRelease → List OwnerReference → Bool
unfolding names_released
has_released_owner version release [] = false
has_released_owner version release (o ∷ l) =
    if names_released version release o then true else has_released_owner version release l

-- The loop on the machines.
unfoldable pub requests_for : Text → HostRelease → List Owned → List (Text × Text)
unfolding has_released_owner
requests_for version release [] = []
requests_for version release ((hrm, owners) ∷ l) =
    let rest = requests_for version release l in
    if has_released_owner version release owners then (hrm.namespace, hrm.name) ∷ rest else rest

-- mapHostReleaseToMachines, with the List of the machines of a namespace.
unfoldable pub map_host_release_to_machines :
    Text → (Text → Result (List Owned)) → HostRelease → List (Text × Text)
unfolding requests_for
map_host_release_to_machines version list release = elim (list release.namespace) [
  | ok machines ↦ requests_for version release machines
  | err e ↦ []
]
