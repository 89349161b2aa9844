-- ===== src/Provision/Install.antt =====
-- stateInstallTalos: from the rescue system to an installed disk.
pub mod Flatcar
use cluster_api_provider_het.Prelude.{
  ℕ, Bool, true, false, Option, none, some, List, [], ◌∷◌, ◌++◌, if◌then◌else◌,
}
use cluster_api_provider_het.Text.{Text, text, concat, is_empty}
use cluster_api_provider_het.Text.Decimal.{itoa}
use cluster_api_provider_het.Result.{Result, Done, ok, err, map_err}
use cluster_api_provider_het.Exec.{Exec, pure, throw, lift, attempt, modify, ◌>>=◌, ◌>>◌}
use cluster_api_provider_het.Api.Host.{Host}
use cluster_api_provider_het.Api.Machine.{RobotMachine, none_yet, installing}
use cluster_api_provider_het.Api.Cluster.{RobotCluster}
use cluster_api_provider_het.World.{World, Call}
use cluster_api_provider_het.Ownership.Hardware.{record_host_hardware_details}
use cluster_api_provider_het.SshRescue.Hardware.{
  HardwareInfo, lookup, resolve_install_disk_from_info,
}
use cluster_api_provider_het.SshRescue.Wipe.{Output, wipe_all_disks}
use cluster_api_provider_het.SshRescue.Client.{
  connect, run, is_reachable, is_rescue_mode, detect_hardware,
}
use cluster_api_provider_het.SshRescue.Image.{install_talos_image}
use cluster_api_provider_het.Provision.{
  Env, Outcome, requeue_after, with_status, set_state, send_call, wrapped, requeue_after_short,
  requeue_after_long,
}
use cluster_api_provider_het.Provision.Secrets.{get_ssh_private_key}
use cluster_api_provider_het.Provision.Rescue.{state_activate_rescue}

-- fmt.Sprintf("hetzner-robot://%d", serverID)
abbrev pub provider_id_text : ℕ → Text
provider_id_text id = text "hetzner-robot://" ++ itoa id

-- hrm.Spec.InstallDisk, or its default
abbrev pub configured_disk : RobotMachine → Text
configured_disk hrm =
    if is_empty hrm.spec.install_disk then text "/dev/nvme0n1" else hrm.spec.install_disk

abbrev or_else : Text → Option Text → Text
or_else disk none = disk
or_else disk (some v) = v

-- The path under /dev/disk/by-id/ of a disk, where the hardware report has one.
unfoldable pub stable_disk : HardwareInfo → Text → Text
unfolding lookup
stable_disk hw disk = or_else disk (lookup disk hw.by_id_paths)

-- DetectHardware, and what is kept of its result in the machine's and the host's status.
unfoldable pub detect_and_record : Env → Text → Exec World HardwareInfo
unfolding record_host_hardware_details
detect_and_record env ip = do
  hw ← lift (map_err (wrapped (text "detect hardware on ") ip) (detect_hardware env.network ip))
  modify (with_status λ st. record st { primary_mac = hw.primary_mac; gateway_ip = hw.gateway_ip })
  attempt
      λ w. record_host_hardware_details env.kube w.machine.namespace w.machine.status.host_ref hw w
  pure hw

-- The install disk, whose stable path is kept in the machine's status.
unfoldable pub resolve_disk : Text → HardwareInfo → Exec World Text
unfolding stable_disk
resolve_disk ip hw w =
    (do
      disk ← lift (
          map_err (wrapped (text "resolve install disk on ") ip)
            (resolve_install_disk_from_info hw (configured_disk w.machine)))
      modify (with_status λ st. record st { resolved_install_disk = stable_disk hw disk })
      pure disk)
      w

pub wipe_error : Text → Text → Text → Text
wipe_error ip e out =
    concat (text "wipe all disks on " ∷ ip ∷ text ": " ∷ e ∷ text "\nOutput: " ∷ out ∷ [])

unfoldable pub wiped : Text → Output → Done
wiped ip o = elim o.failure [ none ↦ ok tt | some e ↦ err (wipe_error ip e o.out) ]

-- The wipe of all disks, which needs at least one.
unfoldable pub call_wipe : Env → Text → List Text → Exec World (Unit {0})
unfolding send_call wiped
call_wipe env ip [] = throw (concat (text "no NVMe disks found on " ∷ ip ∷ []))
call_wipe env ip (d ∷ disks) = do
  send_call (Call.wipe_all_disks ip (d ∷ disks))
  lift (wiped ip (wipe_all_disks (run env.network ip) (d ∷ disks)))

-- A machine's disks are wiped; the result is the hardware and the disk to install to.
unfoldable pub prepare_disks : Env → Text → Exec World (HardwareInfo × Text)
unfolding detect_and_record resolve_disk call_wipe
prepare_disks env ip = do
  hw ← detect_and_record env ip
  disk ← resolve_disk ip hw
  call_wipe env ip hw.nvme_disks
  pure (hw, disk)

-- Rescue is turned off, the server reboots; their errors are logged only.
unfoldable pub leave_rescue : Env → ℕ → Text → Exec World (Unit {0})
unfolding send_call
leave_rescue env id ip = do send_call (Call.deactivate_rescue id); send_call (Call.reboot ip)

-- Is the server in rescue? `none`: port 22 is closed.
unfoldable pub rescue_check : Env → Text → World → Option (Result (Text × Result Bool))
rescue_check env ip w =
    if is_reachable env.network ip
    then some (elim (get_ssh_private_key env w.cluster) [
      | err e ↦ err (wrapped (text "get SSH private key for rescue check") [] e)
      | ok key ↦ ok (key, is_rescue_mode env.network ip key)
    ])
    else none

-- `install` runs in a verified rescue system, over a fresh connection.
unfoldable pub with_rescue_check :
    Env → ℕ → Text → Exec World Outcome → Option (Result (Text × Result Bool)) → Exec World Outcome
unfolding set_state state_activate_rescue
with_rescue_check env id ip install none = do
  set_state none_yet
  pure (requeue_after requeue_after_short)
with_rescue_check env id ip install (some (err e)) = throw e
with_rescue_check env id ip install (some (ok (key, err e))) =
    pure (requeue_after requeue_after_long)
with_rescue_check env id ip install (some (ok (key, ok false))) = state_activate_rescue env id
with_rescue_check env id ip install (some (ok (key, ok true))) = do
  lift (map_err (wrapped (text "SSH connect to rescue ") ip) (connect env.network ip key))
  install

unfoldable pub in_rescue_do : Env → ℕ → Text → Exec World Outcome → Exec World Outcome
unfolding with_rescue_check rescue_check
in_rescue_do env id ip install w = with_rescue_check env id ip install (rescue_check env ip w) w

abbrev factory_url : RobotCluster → Text
factory_url hrc =
    if is_empty hrc.talos_factory_base_url
    then text "https://factory.talos.dev"
    else hrc.talos_factory_base_url

-- The answer of InstallTalos.
unfoldable pub talos_written : Env → Text → Text → World → Done
talos_written env ip disk w = map_err (wrapped (text "install Talos on ") ip) (
    install_talos_image (run env.network ip) (factory_url w.cluster) w.machine.spec.talos_schematic
      w.machine.spec.talos_version disk w.machine.spec.custom_image_url)

-- The image is written; the errors of the EFI fix behind it are logged only.
unfoldable pub write_talos : Env → Text → Text → Exec World (Unit {0})
unfolding send_call
write_talos env ip disk w =
    (do
      send_call (Call.install_talos ip disk)
      lift (talos_written env ip disk w)
      send_call (Call.fix_boot_order ip))
      w

-- What stateInstallTalos does in a verified rescue system.
unfoldable pub install_talos_in_rescue : Env → ℕ → Text → Exec World Outcome
unfolding prepare_disks write_talos leave_rescue set_state
install_talos_in_rescue env id ip = do
  (hw, disk) ← prepare_disks env ip
  write_talos env ip disk
  leave_rescue env id ip
  set_state installing
  pure (requeue_after 90000000000)

unfoldable pub state_install_talos : Env → ℕ → Text → Exec World Outcome
unfolding in_rescue_do install_talos_in_rescue
state_install_talos env id ip = in_rescue_do env id ip (install_talos_in_rescue env id ip)

-- hrh.Spec.InternalIP, "" without a VLAN
abbrev pub vlan_ip : RobotCluster → Host → Text
vlan_ip hrc hrh = elim (hrc.vlan_config) [ none ↦ [] | some v ↦ hrh.spec.internal_ip ]

unfoldable pub set_provider_id : ℕ → Exec World (Unit {0})
set_provider_id id = modify λ w.
    let hrm = w.machine in
    record w {
      machine = record hrm { spec = record hrm.spec { provider_id = some (provider_id_text id) } };
    }
