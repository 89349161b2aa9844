-- ===== src/Policy.antt =====
-- controllers/hetznerrobotmachine_policy.go: may a host be wiped, or reset by remediation?
-- In the messages %q stands as plain double quotes.
pub mod Exact
use cluster_api_provider_het.Prelude.{
  ℕ, Bool, true, false, ◌&&◌, Option, none, some, List, [], ◌∷◌, ltb, if◌then◌else◌, ◌++◌,
}
use cluster_api_provider_het.Text.{Text, text, text_eq, concat}
use cluster_api_provider_het.Result.{Result, Done, ok, err}
use cluster_api_provider_het.Api.Host.{Host, LifecycleClass, DestructivePolicy}
use cluster_api_provider_het.Api.Machine.{
  RobotMachine, ProvisioningState, none_yet, activating_rescue, in_rescue, installing,
}
use cluster_api_provider_het.Api.Capi.{Machine}
use cluster_api_provider_het.Api.Release.{HostRelease, ReleaseAction, wipe_and_reinstall}

abbrev is_always_clean_slate : DestructivePolicy → Bool
is_always_clean_slate DestructivePolicy.always_clean_slate = true
is_always_clean_slate _ = false

abbrev requires_release : DestructivePolicy → Bool
requires_release DestructivePolicy.requires_external_release = true
requires_release _ = false

pub policy_text : DestructivePolicy → Text
policy_text DestructivePolicy.unset = []
policy_text DestructivePolicy.always_clean_slate = text "AlwaysCleanSlate"
policy_text DestructivePolicy.never_destructive = text "NeverDestructiveByDefault"
policy_text DestructivePolicy.requires_external_release = text "RequiresExternalRelease"
policy_text (DestructivePolicy.other s) = s

pub denied : Text → Text → List Text → Text
denied what name rest = concat (what ∷ name ∷ text ": " ∷ rest)

-- The `switch` on the lifecycle class of authorizeDestructiveProvisioning.
switch_provisioning : LifecycleClass → Host → Done
switch_provisioning LifecycleClass.compute host =
    if is_always_clean_slate host.spec.policy
    then ok tt
    else err (
        denied (text "destructive provisioning denied for compute host ") host.name (
          text "policy=\""
          ∷ policy_text host.spec.policy
          ∷ text "\", want \"AlwaysCleanSlate\""
          ∷ []))
switch_provisioning LifecycleClass.control_plane host = err (
    denied (text "destructive provisioning denied for control-plane host ") host.name
      (text "policy=\"" ∷ policy_text host.spec.policy ∷ text "\"" ∷ []))
switch_provisioning LifecycleClass.storage host = err (
    denied (text "destructive provisioning denied for storage host ") host.name
      (text "active storage host release is required" ∷ []))
switch_provisioning LifecycleClass.unset host = err (
    denied (text "destructive provisioning denied for host ") host.name
      (text "lifecycleClass is required" ∷ []))
switch_provisioning (LifecycleClass.other s) host = err (
    denied (text "destructive provisioning denied for host ") host.name
      (text "unsupported lifecycleClass=\"" ∷ s ∷ text "\"" ∷ []))

pub in_maintenance : Text → Host → Text
in_maintenance what host = denied what host.name (text "maintenanceMode=true" ∷ [])

-- The function authorizeDestructiveProvisioning; a nil pointer is `none`.
unfoldable pub authorize_destructive_provisioning : Option Host → Done
unfolding switch_provisioning
authorize_destructive_provisioning none = err (text "destructive provisioning denied: host is nil")
authorize_destructive_provisioning (some host) =
    if host.spec.maintenance_mode
    then err (in_maintenance (text "destructive provisioning denied for host ") host)
    else switch_provisioning host.spec.lifecycle_class host

abbrev is_wipe : ReleaseAction → Bool
is_wipe wipe_and_reinstall = true
is_wipe (ReleaseAction.other s) = false

-- The filters of findActiveHostRelease on one release.
unfoldable pub release_matches : ℕ → Host → Machine → HostRelease → Bool
release_matches now host machine release =
    text_eq release.host_ref host.name
    && is_wipe release.approved_action
    && ltb now release.expires_at
    && text_eq release.machine_ref.name machine.name
    && text_eq release.machine_ref.namespace machine.namespace
    && text_eq release.machine_ref.uid machine.uid

-- The loop of findActiveHostRelease.
unfoldable pub first_release : ℕ → Host → Machine → List HostRelease → Option HostRelease
first_release now host machine [] = none
first_release now host machine (release ∷ rest) =
    if release_matches now host machine release
    then some release
    else first_release now host machine rest

-- What the API server answers to a List of the releases of a namespace.
abbrev pub Releases : Type 0
Releases = Text → Result (List HostRelease)

unfoldable pub find_active_host_release :
    ℕ → Releases → Host → Option Machine → Result (Option HostRelease)
find_active_host_release now releases host none = err (
    denied (text "destructive provisioning denied for host ") host.name
      (text "CAPI Machine is nil" ∷ []))
find_active_host_release now releases host (some machine) = elim (releases host.namespace) [
  | ok l ↦ ok (first_release now host machine l)
  | err e ↦
      err (concat (text "list HetznerRobotHostReleases for host " ∷ host.name ∷ text ": " ∷ e ∷ []))
]

pub release_required : Host → Option Machine → Text
release_required host none = []
release_required host (some machine) =
    denied (text "destructive provisioning denied for storage host ") host.name (
      text "active HetznerRobotHostRelease for Machine "
      ∷ machine.namespace
      ∷ text "/"
      ∷ machine.name
      ∷ text " uid="
      ∷ machine.uid
      ∷ text " is required"
      ∷ [])

-- What follows the call of findActiveHostRelease.
unfoldable pub require_release : Host → Option Machine → Result (Option HostRelease) → Done
require_release host machine (err e) = err e
require_release host machine (ok none) = err (release_required host machine)
require_release host machine (ok (some release)) = ok tt

abbrev is_storage : LifecycleClass → Bool
is_storage LifecycleClass.storage = true
is_storage _ = false

-- The method authorizeDestructiveProvisioning of the machine reconciler.
unfoldable pub authorize_destructive_provisioning_for :
    ℕ → Releases → Option RobotMachine → Option Machine → Option Host → Done
unfolding authorize_destructive_provisioning find_active_host_release require_release
authorize_destructive_provisioning_for now releases hrm machine none =
    err (text "destructive provisioning denied: host is nil")
authorize_destructive_provisioning_for now releases none machine (some host) = err (
    denied (text "destructive provisioning denied for host ") host.name
      (text "HetznerRobotMachine is nil" ∷ []))
authorize_destructive_provisioning_for now releases (some hrm) machine (some host) =
    if is_storage host.spec.lifecycle_class
    then (if host.spec.maintenance_mode
        then err (in_maintenance (text "destructive provisioning denied for host ") host)
        else if requires_release host.spec.policy
        then require_release host machine (find_active_host_release now releases host machine)
        else err (
            denied (text "destructive provisioning denied for storage host ") host.name (
              text "policy=\""
              ∷ policy_text host.spec.policy
              ∷ text "\", want \"RequiresExternalRelease\""
              ∷ [])))
    else authorize_destructive_provisioning (some host)

-- The `switch` on the lifecycle class of authorizeAutomatedHardwareReset.
switch_reset : LifecycleClass → Host → Done
switch_reset LifecycleClass.compute host =
    if is_always_clean_slate host.spec.policy
    then ok tt
    else err (
        denied (text "automated hardware reset denied for compute host ") host.name (
          text "policy=\""
          ∷ policy_text host.spec.policy
          ∷ text "\", want \"AlwaysCleanSlate\""
          ∷ []))
switch_reset LifecycleClass.control_plane host = err (
    denied (text "automated hardware reset denied for control-plane host ") host.name
      (text "platform quorum gate required" ∷ []))
switch_reset LifecycleClass.storage host = err (
    denied (text "automated hardware reset denied for storage host ") host.name
      (text "external storage health/release gate required" ∷ []))
switch_reset LifecycleClass.unset host = err (
    denied (text "automated hardware reset denied for host ") host.name
      (text "lifecycleClass is required" ∷ []))
switch_reset (LifecycleClass.other s) host = err (
    denied (text "automated hardware reset denied for host ") host.name
      (text "unsupported lifecycleClass=\"" ∷ s ∷ text "\"" ∷ []))

unfoldable pub authorize_automated_hardware_reset : Option Host → Done
unfolding switch_reset
authorize_automated_hardware_reset none = err (text "automated hardware reset denied: host is nil")
authorize_automated_hardware_reset (some host) =
    if host.spec.maintenance_mode
    then err (in_maintenance (text "automated hardware reset denied for host ") host)
    else switch_reset host.spec.lifecycle_class host

unfoldable pub provisioning_may_become_destructive : ProvisioningState → Bool
provisioning_may_become_destructive none_yet = true
provisioning_may_become_destructive activating_rescue = true
provisioning_may_become_destructive in_rescue = true
provisioning_may_become_destructive installing = true
provisioning_may_become_destructive _ = false
