-- ===== src/Provision/Normal.antt =====
-- reconcileNormal: a machine on its way to be provisioned, and one that is.
use cluster_api_provider_het.Prelude.{Bool, true, false, some, List, [], ◌∷◌, ◌++◌, if◌then◌else◌}
use cluster_api_provider_het.Text.{Text, text, is_empty}
use cluster_api_provider_het.Result.{Done, ok, err, map_err}
use cluster_api_provider_het.Exec.{Exec, pure, lift, wrap, attempt, modify, ◌>>=◌, ◌>>◌}
use cluster_api_provider_het.Api.Host.{Host}
use cluster_api_provider_het.Api.Machine.{
  RobotMachine, ProvisioningState, none_yet, activating_rescue, in_rescue, installing,
  booting_talos, applying_config, waiting_for_boot, booting_flatcar, Address, external_ip,
  internal_ip, ReadyCondition, is_false, Severity,
}
use cluster_api_provider_het.Api.Cluster.{RobotCluster}
use cluster_api_provider_het.Api.Capi.{Machine}
use cluster_api_provider_het.Policy.{
  authorize_destructive_provisioning_for, provisioning_may_become_destructive,
}
use cluster_api_provider_het.World.{World}
use cluster_api_provider_het.Ownership.Claim.{resolve_host}
use cluster_api_provider_het.Ownership.Adoption.{
  backfill_provisioned_host_claim, ensure_provisioned_host_status,
}
use cluster_api_provider_het.Inject.{node_ipv6}
use cluster_api_provider_het.Provision.{
  Env, Outcome, done, requeue_after, with_status, mark_provisioned, wrapped, is_flatcar,
  requeue_after_long,
}
use cluster_api_provider_het.Provision.Secrets.{build_robot_client}
use cluster_api_provider_het.Provision.Rescue.{state_activate_rescue, state_check_rescue_active}
use cluster_api_provider_het.Provision.Install.{state_install_talos, vlan_ip}
use cluster_api_provider_het.Provision.Install.Flatcar.{state_install_flatcar}
use cluster_api_provider_het.Provision.Boot.{
  state_wait_install, state_wait_talos_maintenance_mode, state_wait_for_boot,
  state_wait_flatcar_install, state_wait_flatcar_boot,
}
use cluster_api_provider_het.Provision.Config.{state_apply_config}

-- backfillProvisionedHostClaim and ensureProvisionedHostStatus, whose errors are logged only.
unfoldable pub keep_provisioned : Env → Exec World Outcome
unfolding mark_provisioned
keep_provisioned env w =
    (do
      if is_empty w.machine.status.host_ref
          then (do attempt (backfill_provisioned_host_claim env.kube); pure tt)
          else pure tt
      modify (
          with_status λ st. record st {
            ready = true;
            initialization = some true;
            ready_condition = some ReadyCondition.is_true;
          })
      attempt (ensure_provisioned_host_status env.kube)
      λ w'. (
        ok (if is_empty w'.machine.status.host_ref then requeue_after requeue_after_long else done),
        w',
      ))
      w

abbrev with_internal : Text → List Address
with_internal ip = if is_empty ip then [] else internal_ip ip ∷ []

-- "Set addresses — report all known IPs"
unfoldable pub addresses_of : RobotCluster → Host → List Address
unfolding node_ipv6
addresses_of hrc hrh =
    external_ip hrh.spec.server_ip ∷ with_internal (vlan_ip hrc hrh)
    ++ (if is_empty hrh.spec.server_ipv6_net
        then []
        else external_ip (node_ipv6 hrh.spec.server_ipv6_net) ∷ [])

-- markDestructiveProvisioningDenied
unfoldable pub mark_denied : Text → Exec World (Unit {0})
mark_denied e = modify (
    with_status λ st. record st {
      ready_condition = some (is_false (text "DestructiveProvisioningDenied") Severity.warning e);
    })

-- The gate in front of states that may destroy what is on the host.
unfoldable pub gate : Env → Machine → Host → RobotMachine → Done
gate env machine hrh hrm =
    if provisioning_may_become_destructive hrm.status.provisioning_state
    then authorize_destructive_provisioning_for env.now env.kube.releases (some hrm) (some machine)
        (some hrh)
    else ok tt

-- The `switch` on the provisioning state.
unfoldable pub run_state : Env → Machine → Host → ProvisioningState → Bool → Exec World Outcome
run_state env machine hrh none_yet flatcar = state_activate_rescue env hrh.spec.server_id
run_state env machine hrh activating_rescue flatcar =
    state_check_rescue_active env hrh.spec.server_id hrh.spec.server_ip
run_state env machine hrh in_rescue true =
    state_install_flatcar env machine hrh hrh.spec.server_id hrh.spec.server_ip
run_state env machine hrh in_rescue false =
    state_install_talos env hrh.spec.server_id hrh.spec.server_ip
run_state env machine hrh installing true = state_wait_flatcar_install env hrh.spec.server_ip
run_state env machine hrh installing false =
    state_wait_install env hrh.spec.server_id hrh.spec.server_ip
run_state env machine hrh booting_talos flatcar =
    state_wait_talos_maintenance_mode env machine hrh.spec.server_ip
run_state env machine hrh applying_config flatcar =
    state_apply_config env machine hrh hrh.spec.server_id hrh.spec.server_ip
run_state env machine hrh waiting_for_boot flatcar = state_wait_for_boot env hrh.spec.server_ip
run_state env machine hrh booting_flatcar flatcar = state_wait_flatcar_boot env hrh.spec.server_ip
run_state env machine hrh _ flatcar = pure done

-- Behind the gate: the Robot client, and the state machine.
unfoldable pub drive : Env → Machine → Host → Exec World Outcome
unfolding run_state
drive env machine hrh w =
    (do
      lift (map_err (wrapped (text "build robot client") []) (build_robot_client env w.cluster))
      run_state env machine hrh w.machine.status.provisioning_state (is_flatcar w.machine))
      w

unfoldable pub pass_gate : Env → Machine → Host → Done → Exec World Outcome
unfolding drive mark_denied
pass_gate env machine hrh (ok u) = drive env machine hrh
pass_gate env machine hrh (err e) = do mark_denied e; pure (requeue_after requeue_after_long)

-- A machine whose host is resolved.
unfoldable pub with_host : Env → Machine → Host → Exec World Outcome
unfolding pass_gate gate addresses_of
with_host env machine hrh w =
    (do
      modify (with_status λ st. record st { addresses = addresses_of w.cluster hrh })
      pass_gate env machine hrh (gate env machine hrh w.machine))
      w

unfoldable pub provision : Env → Machine → Exec World Outcome
unfolding with_host
provision env machine = do
  hrh ← wrap (wrapped (text "resolve host") []) (resolve_host env.kube)
  with_host env machine hrh

abbrev pub is_provisioned : ProvisioningState → Bool
is_provisioned ProvisioningState.provisioned = true
is_provisioned _ = false

unfoldable pub reconcile_normal : Env → Machine → Exec World Outcome
unfolding keep_provisioned provision
reconcile_normal env machine w =
    (if is_provisioned w.machine.status.provisioning_state
        then keep_provisioned env
        else provision env machine)
      w
