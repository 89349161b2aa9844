-- ===== src/Provision/Install/Flatcar.antt =====
-- controllers/hetznerrobotmachine_flatcar.go: stateInstallFlatcar, from the rescue system to an
-- installed disk.
use cluster_api_provider_het.Prelude.{ℕ, [], if◌then◌else◌}
use cluster_api_provider_het.Text.{Text, text, is_empty}
use cluster_api_provider_het.Result.{Done, ok, err, map_err}
use cluster_api_provider_het.Exec.{Exec, pure, lift, ◌>>=◌, ◌>>◌}
use cluster_api_provider_het.Api.Host.{Host}
use cluster_api_provider_het.Api.Machine.{RobotMachine, installing}
use cluster_api_provider_het.Api.Cluster.{RobotCluster}
use cluster_api_provider_het.Api.Capi.{Machine}
use cluster_api_provider_het.World.{World, Call}
use cluster_api_provider_het.SshRescue.Hardware.{HardwareInfo}
use cluster_api_provider_het.SshRescue.Client.{run}
use cluster_api_provider_het.SshRescue.Image.{install_flatcar_image}
use cluster_api_provider_het.Ignition.{FlatcarInput, inject_flatcar_config}
use cluster_api_provider_het.Provision.{
  Env, Outcome, requeue_after, set_state, send_call, wrapped, requeue_after_short,
}
use cluster_api_provider_het.Provision.Secrets.{get_bootstrap_data, get_ssh_public_key}
use cluster_api_provider_het.Provision.Install.{
  vlan_ip, set_provider_id, provider_id_text, prepare_disks, leave_rescue, in_rescue_do,
}

-- What injectFlatcarConfig is given.
unfoldable pub flatcar_input :
    RobotCluster → Host → ℕ → Text → HardwareInfo → Text → Text → FlatcarInput
flatcar_input hrc hrh id ip hw bootstrap key = record {
  bootstrap_data = bootstrap;
  provider_id = provider_id_text id;
  internal_ip = vlan_ip hrc hrh;
  ipv6_net = hrh.spec.server_ipv6_net;
  primary_mac = hw.primary_mac;
  vlan_config = hrc.vlan_config;
  ssh_public_key = key;
  server_ip = ip;
  gateway_ip = hw.gateway_ip;
}

abbrev channel : RobotMachine → Text
channel hrm = if is_empty hrm.spec.flatcar_channel then text "stable" else hrm.spec.flatcar_channel

-- The answer of InstallFlatcar.
unfoldable pub flatcar_written : Env → Text → Text → Text → World → Done
flatcar_written env ip disk ignition w = map_err (wrapped (text "install Flatcar on ") ip) (
    install_flatcar_image env.base64 (run env.network ip) (channel w.machine) disk
      w.machine.spec.custom_image_url ignition)

unfoldable pub write_flatcar : Env → Text → Text → Text → Exec World (Unit {0})
unfolding send_call
write_flatcar env ip disk ignition w =
    (do
      send_call (Call.install_flatcar ip disk ignition)
      lift (flatcar_written env ip disk ignition w)
      send_call (Call.fix_boot_order ip))
      w

-- What stateInstallFlatcar does in a verified rescue system.
unfoldable pub install_flatcar_in_rescue : Env → Host → ℕ → Text → Text → Text → Exec World Outcome
unfolding prepare_disks write_flatcar leave_rescue set_state set_provider_id
install_flatcar_in_rescue env hrh id ip bootstrap key w =
    (do
      (hw, disk) ← prepare_disks env ip
      ignition ← lift (
          map_err (wrapped (text "inject Flatcar config") [])
            (inject_flatcar_config env.json (flatcar_input w.cluster hrh id ip hw bootstrap key)))
      write_flatcar env ip disk ignition
      set_provider_id id
      leave_rescue env id ip
      set_state installing
      pure (requeue_after 300000000000))
      w

-- The bootstrap data is asked for before anything is destroyed.
unfoldable pub state_install_flatcar : Env → Machine → Host → ℕ → Text → Exec World Outcome
unfolding in_rescue_do install_flatcar_in_rescue
state_install_flatcar env machine hrh id ip w = elim (get_bootstrap_data env machine) [
  | err e ↦ (ok (requeue_after requeue_after_short), w)
  | ok bootstrap ↦ elim (get_ssh_public_key env w.cluster) [
    | err e ↦ (err (wrapped (text "get SSH public key for Flatcar") [] e), w)
    | ok key ↦ in_rescue_do env id ip (install_flatcar_in_rescue env hrh id ip bootstrap key) w
  ]
]
