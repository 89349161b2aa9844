-- ===== src/Provision/Config.antt =====
-- stateApplyConfig: the machineconfig that a Talos node is given.
use cluster_api_provider_het.Prelude.{ℕ, Option, none, some, [], ◌∷◌, if◌then◌else◌}
use cluster_api_provider_het.Text.{Text, text, concat, is_empty}
use cluster_api_provider_het.Result.{Result, ok, err, map_err, and_then}
use cluster_api_provider_het.Exec.{Exec, pure, lift, ◌>>=◌, ◌>>◌}
use cluster_api_provider_het.Api.Host.{Host}
use cluster_api_provider_het.Api.Machine.{RobotMachine, waiting_for_boot}
use cluster_api_provider_het.Api.Cluster.{RobotCluster, VlanConfig}
use cluster_api_provider_het.Api.Capi.{Machine}
use cluster_api_provider_het.World.{World, Call}
use cluster_api_provider_het.Config.{Codec}
use cluster_api_provider_het.Inject.{
  inject_install_disk, inject_vlan_config, inject_ipv6_config, inject_kubelet_node_ip,
  inject_provider_id,
}
use cluster_api_provider_het.Talos.{talos_apply_config}
use cluster_api_provider_het.Provision.{
  Env, Outcome, requeue_after, set_state, send_call, wrapped, requeue_after_short,
  requeue_after_medium,
}
use cluster_api_provider_het.Provision.Secrets.{get_bootstrap_data}
use cluster_api_provider_het.Provision.Install.{
  configured_disk, provider_id_text, set_provider_id, vlan_ip,
}

-- hrm.Status.ResolvedInstallDisk, or what it stands in for.
abbrev pub config_disk : RobotMachine → Text
config_disk hrm =
    if is_empty hrm.status.resolved_install_disk
    then configured_disk hrm
    else hrm.status.resolved_install_disk

pub no_internal_ip : Host → Text
no_internal_ip hrh =
    concat
      (text "VLANConfig is set on cluster but host " ∷ hrh.name ∷ text " has no internalIP" ∷ [])

-- The part of stateApplyConfig on the VLAN.
unfoldable pub vlan_step : Codec → Option VlanConfig → Host → RobotMachine → Text → Result Text
vlan_step c none hrh hrm config = ok config
vlan_step c (some vlan) hrh hrm config =
    if is_empty hrh.spec.internal_ip
    then err (no_internal_ip hrh)
    else if is_empty hrm.status.gateway_ip
    then err (text "gateway IP not detected — machine must go through rescue install first")
    else map_err (wrapped (text "inject VLAN config") [])
        (inject_vlan_config c config (some vlan) hrh.spec.internal_ip hrm.status.primary_mac)

-- The part on the IPv6 network.
unfoldable pub ipv6_step : Codec → Host → RobotMachine → Text → Result Text
ipv6_step c hrh hrm config =
    if is_empty hrh.spec.server_ipv6_net
    then ok config
    else map_err (wrapped (text "inject IPv6 config") [])
        (inject_ipv6_config c config hrh.spec.server_ipv6_net hrm.status.primary_mac)

-- The machineconfig of a node, from the bootstrap data.
unfoldable pub build_config : Codec → RobotMachine → RobotCluster → Host → ℕ → Text → Result Text
unfolding vlan_step ipv6_step
build_config c hrm hrc hrh id bootstrap =
    and_then
      (map_err (wrapped (text "inject install disk into config") [])
        (inject_install_disk c bootstrap (config_disk hrm)))
      λ with_disk.
        if is_empty hrm.status.primary_mac
        then err
            (text "primary NIC MAC not detected — machine must go through rescue install first")
        else and_then (vlan_step c hrc.vlan_config hrh hrm with_disk) λ with_vlan.
          and_then (ipv6_step c hrh hrm with_vlan) λ with_ipv6.
            and_then
              (map_err (wrapped (text "inject kubelet nodeIP") [])
                (inject_kubelet_node_ip c with_ipv6 (vlan_ip hrc hrh) hrh.spec.server_ipv6_net))
              λ with_ip.
                map_err (wrapped (text "inject providerID into config") [])
                  (inject_provider_id c with_ip (provider_id_text id))

unfoldable pub apply_built : Env → ℕ → Text → Text → Exec World Outcome
unfolding send_call set_provider_id set_state
apply_built env id ip config = do
  send_call (Call.apply_config ip config)
  lift
      (map_err (wrapped (text "apply Talos config to ") ip) (talos_apply_config env.grpc ip config))
  set_provider_id id
  set_state waiting_for_boot
  pure (requeue_after requeue_after_medium)

unfoldable pub with_bootstrap : Env → Host → ℕ → Text → Result Text → Exec World Outcome
unfolding build_config apply_built
with_bootstrap env hrh id ip (err e) w = (ok (requeue_after requeue_after_short), w)
with_bootstrap env hrh id ip (ok bootstrap) w =
    (do
      config ← lift (build_config env.codec w.machine w.cluster hrh id bootstrap)
      apply_built env id ip config)
      w

unfoldable pub state_apply_config : Env → Machine → Host → ℕ → Text → Exec World Outcome
unfolding with_bootstrap
state_apply_config env machine hrh id ip =
    with_bootstrap env hrh id ip (get_bootstrap_data env machine)
