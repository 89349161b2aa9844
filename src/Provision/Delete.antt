-- ===== src/Provision/Delete.antt =====
-- reconcileDelete: the last reset of a server, and the release of its host.
use cluster_api_provider_het.Prelude.{
  ℕ, Bool, true, false, ◌&&◌, ◌||◌, ◌==◌, none, some, List, [], ◌∷◌, if◌then◌else◌,
}
use cluster_api_provider_het.Text.{Text, text, text_eq}
use cluster_api_provider_het.Result.{Result, Done, ok, err}
use cluster_api_provider_het.Exec.{Exec, pure, attempt, modify, ◌>>=◌, ◌>>◌}
use cluster_api_provider_het.Api.Host.{Host}
use cluster_api_provider_het.Api.Machine.{RobotMachine, ProvisioningState}
use cluster_api_provider_het.Api.Capi.{Machine, Condition}
use cluster_api_provider_het.Policy.{authorize_destructive_provisioning_for}
use cluster_api_provider_het.World.{World}
use cluster_api_provider_het.Ownership.Release.{Resolved, resolve_host_for_delete, release_host}
use cluster_api_provider_het.Provision.{
  Env, Outcome, done, requeue_after, set_state, requeue_after_short,
}
use cluster_api_provider_het.Provision.Secrets.{build_robot_client, get_ssh_key_fingerprint}
use cluster_api_provider_het.Provision.Rescue.{call_activate_rescue, call_reset_server}

-- clusterv1.DrainingSucceededCondition
abbrev draining_succeeded : Text
draining_succeeded = text "DrainingSucceeded"

-- Does a condition say that the drain is over? The source has a loop for each half.
unfoldable pub is_drained_by : Condition → Bool
is_drained_by cond =
    text_eq cond.kind draining_succeeded
    && (text_eq cond.status (text "True") || text_eq cond.reason (text "DrainError"))

unfoldable pub any_drained : List Condition → Bool
unfolding is_drained_by
any_drained [] = false
any_drained (cond ∷ rest) = is_drained_by cond || any_drained rest

-- A machine without a node needs no drain.
unfoldable pub drain_done : Machine → Bool
unfolding any_drained
drain_done machine = elim machine.node_ref [
  | none ↦ true
  | some node ↦ any_drained machine.conditions
]

unfoldable pub remove_finalizer : Exec World Outcome
remove_finalizer = do
  modify (λ w. record w { machine = record w.machine { has_finalizer = false } })
  pure done

abbrev pub or_no_fingerprint : Result Text → Text
or_no_fingerprint (ok fingerprint) = fingerprint
or_no_fingerprint (err e) = []

-- The rescue system is armed and the server reset; their errors are logged only.
unfoldable pub reset_for_delete : Env → ℕ → Exec World (Unit {0})
unfolding call_activate_rescue call_reset_server
reset_for_delete env id w =
    (do
      attempt
          (call_activate_rescue env id (or_no_fingerprint (get_ssh_key_fingerprint env w.cluster)))
      attempt (call_reset_server env id)
      pure tt)
      w

unfoldable pub reset_known : Env → ℕ → Exec World (Unit {0})
unfolding reset_for_delete
reset_known env id = if id == 0 then pure tt else reset_for_delete env id

-- The reset, then the release, whose error is logged only.
unfoldable pub reset_and_release : Env → Host → Exec World Outcome
unfolding reset_known remove_finalizer
reset_and_release env hrh w =
    (do
      reset_known env hrh.spec.server_id
      attempt (release_host env.kube w.machine.namespace hrh.name)
      remove_finalizer)
      w

-- May the host of a machine that goes be wiped? A host without a server id is not reset.
unfoldable pub delete_gate : Env → Machine → RobotMachine → Host → Done
delete_gate env machine hrm hrh =
    if hrh.spec.server_id == 0
    then ok tt
    else authorize_destructive_provisioning_for env.now env.kube.releases (some hrm) (some machine)
        (some hrh)

unfoldable pub pass_delete_gate : Env → Host → Done → Exec World Outcome
unfolding reset_and_release remove_finalizer
pass_delete_gate env hrh (ok u) = reset_and_release env hrh
pass_delete_gate env hrh (err e) = remove_finalizer

-- What is done about the resolved host.
unfoldable pub delete_host : Env → Machine → Resolved → Exec World Outcome
unfolding pass_delete_gate delete_gate
delete_host env machine (none, release) w = remove_finalizer w
delete_host env machine (some hrh, false) w =
    (do reset_known env hrh.spec.server_id; remove_finalizer) w
delete_host env machine (some hrh, true) w =
    pass_delete_gate env hrh (delete_gate env machine w.machine hrh) w

abbrev pub or_no_host : Result Resolved → Resolved
or_no_host (ok r) = r
or_no_host (err e) = (none, false)

abbrev is_ok : Done → Bool
is_ok (ok u) = true
is_ok (err e) = false

-- Behind the resolution of the host: the drain, the Robot client, the host.
unfoldable pub delete_resolved : Env → Machine → Resolved → Exec World Outcome
unfolding delete_host drain_done remove_finalizer
delete_resolved env machine resolved w =
    (if drain_done machine
        then (if is_ok (build_robot_client env w.cluster)
            then delete_host env machine resolved
            else remove_finalizer)
        else pure (requeue_after requeue_after_short))
      w

unfoldable pub reconcile_delete : Env → Machine → Exec World Outcome
unfolding delete_resolved resolve_host_for_delete set_state
reconcile_delete env machine w =
    (do
      set_state ProvisioningState.deleting
      found ← attempt (resolve_host_for_delete env.kube w.machine)
      delete_resolved env machine (or_no_host found))
      w
