-- ===== src/Ownership/Release.antt =====
-- resolveHostForDelete, releaseHost and updateHostState.
use cluster_api_provider_het.Prelude.{Bool, true, false, Option, none, some, [], ◌∷◌, if◌then◌else◌}
use cluster_api_provider_het.Text.{Text, text, text_eq, concat, is_empty}
use cluster_api_provider_het.Result.{map_err}
use cluster_api_provider_het.Exec.{Exec, pure, lift, wrap, ◌>>=◌}
use cluster_api_provider_het.Api.Host.{Host, HostState}
use cluster_api_provider_het.Api.Machine.{RobotMachine}
use cluster_api_provider_het.World.{World, Kube, get_host, list_hosts, patch_host}
use cluster_api_provider_het.Ownership.{
  host_is_claimed_by, current_host_consumer_ref, clear_host_consumer_ref,
}
use cluster_api_provider_het.Ownership.Claim.{named, get_error, first_claimed, state_text}

-- A host and whether it is to be released.
abbrev pub Resolved : Type 0
Resolved = Option Host × Bool

unfoldable pub release_claimed : RobotMachine → Host → Resolved
release_claimed hrm hrh = if host_is_claimed_by hrh hrm then (some hrh, true) else (none, false)

unfoldable pub release_first : Option Host → Resolved
release_first none = (none, false)
release_first (some h) = (some h, true)

unfoldable pub resolve_for_delete_by_spec :
    Kube → RobotMachine → Option Text → Option Text → Exec World Resolved
unfolding release_claimed release_first first_claimed
resolve_for_delete_by_spec k hrm (some name) selector = do
  hrh ← wrap (get_error (text "get directly referenced host ") name) (get_host k hrm.namespace name)
  pure (release_claimed hrm hrh)
resolve_for_delete_by_spec k hrm none (some selector) = do
  p ←
      lift
        (map_err (λ e. concat (text "invalid hostSelector: " ∷ e ∷ [])) (k.label_selector selector))
  l ← wrap (λ e. concat (text "list hosts by selector: " ∷ e ∷ [])) (list_hosts k hrm.namespace p)
  pure (release_first (first_claimed hrm l))
resolve_for_delete_by_spec k hrm none none = pure (none, false)

unfoldable pub resolve_for_delete_by_status : Kube → RobotMachine → Exec World Resolved
resolve_for_delete_by_status k hrm = do
  hrh ←
      wrap (get_error (text "get claimed host ") hrm.status.host_ref)
        (get_host k hrm.namespace hrm.status.host_ref)
  pure (some hrh, true)

unfoldable pub resolve_host_for_delete : Kube → RobotMachine → Exec World Resolved
unfolding resolve_for_delete_by_spec resolve_for_delete_by_status
resolve_host_for_delete k hrm =
    if is_empty hrm.status.host_ref
    then resolve_for_delete_by_spec k hrm (named hrm.spec.host_ref) hrm.spec.host_selector
    else resolve_for_delete_by_status k hrm

-- The host after its release.
unfoldable pub released_host : Host → Host
unfolding current_host_consumer_ref clear_host_consumer_ref text
released_host hrh =
    let last = current_host_consumer_ref hrh in
    let host = clear_host_consumer_ref hrh in
    record host {
      status = record (host.status) {
        state = HostState.available;
        last_consumer_ref = last;
        dirty_reason = text "ReleasedAfterMachineDelete";
        error_message = [];
      };
    }

unfoldable pub release_host : Kube → Text → Text → Exec World (Unit {0})
unfolding released_host
release_host k namespace name = do
  hrh ← wrap (get_error (text "get host ") name) (get_host k namespace name)
  patch_host k (text "init HRH patch helper") (concat (text "patch host " ∷ name ∷ []))
      (released_host hrh)

-- Equality of the strings that the states are.
state_eq : HostState → HostState → Bool
state_eq HostState.unset HostState.unset = true
state_eq HostState.available HostState.available = true
state_eq HostState.claimed HostState.claimed = true
state_eq HostState.provisioned HostState.provisioned = true
state_eq (HostState.other s) (HostState.other t) = text_eq s t
state_eq _ _ = false

unfoldable pub update_host_state : Kube → Text → Text → HostState → Exec World (Unit {0})
unfolding state_eq
update_host_state k namespace name state = do
  hrh ← wrap (get_error (text "get host ") name) (get_host k namespace name)
  if state_eq hrh.status.state state
      then pure tt
      else patch_host k (text "init HRH patch helper")
          (concat (text "patch host " ∷ name ∷ text " state to " ∷ state_text state ∷ []))
          (record hrh { status = record hrh.status { state = state } })
