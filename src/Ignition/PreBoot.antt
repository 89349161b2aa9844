-- ===== src/Ignition/PreBoot.antt =====
-- writePreBootNetwork: a static network on the ROOT partition of a Flatcar disk. Nothing calls it.
use cluster_api_provider_het.Prelude.{
  ℕ, ◌||◌, ◌==◌, Option, none, some, List, [], ◌∷◌, ◌++◌, if◌then◌else◌,
}
use cluster_api_provider_het.Text.{Text, text, concat, is_empty}
use cluster_api_provider_het.Text.Decimal.{itoa}
use cluster_api_provider_het.Result.{Done, ok, err}
use cluster_api_provider_het.Api.Cluster.{VlanConfig}
use cluster_api_provider_het.SshRescue.Wipe.{Output}
use cluster_api_provider_het.SshRescue.Image.{check_run}
use cluster_api_provider_het.Ignition.Network.{primary_network, vlan_netdev, vlan_network}

-- What the function is given; the network of the machine.
pub record Addresses : Type 0 where
  pub primary_mac : Text
  pub server_ip : Text
  pub gateway_ip : Text
  pub ipv6_net : Text
  pub internal_ip : Text
  pub vlan_config : Option VlanConfig

abbrev pub mount_point : Text
mount_point = text "/mnt/flatcar-root"

abbrev network_dir : Text
network_dir = mount_point ++ text "/etc/systemd/network"

unfoldable pub mount_command : Text → Text
mount_command part =
    concat (text "mkdir -p " ∷ mount_point ∷ text " && mount " ∷ part ∷ text " " ∷ mount_point ∷ [])

unfoldable pub unmount_command : Text
unmount_command = concat (text "umount " ∷ mount_point ∷ text " 2>/dev/null || true" ∷ [])

-- A here-document with the content of a file.
unfoldable pub write_command : Text → Text → Text
write_command name content = concat (
    text "cat > "
    ∷ network_dir
    ∷ text "/"
    ∷ name
    ∷ text " << 'NETEOF'\n"
    ∷ content
    ∷ text "NETEOF"
    ∷ [])

abbrev prefix_or_default : ℕ → ℕ
prefix_or_default n = if n == 0 then 24 else n

-- The files of the VLAN: what an error says, and the command.
unfoldable pub vlan_steps : Addresses → List (Text × Text)
unfolding write_command
vlan_steps a = elim (a.vlan_config) [
  | none ↦ []
  | some vlan ↦
      if is_empty a.internal_ip
      then []
      else (
        text "write vlan netdev",
        write_command (concat (text "10-vlan" ∷ itoa vlan.id ∷ text ".netdev" ∷ []))
            (vlan_netdev vlan.id),
      )
        ∷ (
          text "write vlan network",
          write_command (concat (text "10-vlan" ∷ itoa vlan.id ∷ text ".network" ∷ []))
              (vlan_network vlan.id a.internal_ip (prefix_or_default vlan.prefix_length)),
        )
        ∷ []
]

-- What is done while the partition is mounted.
unfoldable pub mounted_steps : Addresses → List (Text × Text)
unfolding write_command vlan_steps
mounted_steps a =
    (text "create networkd dir on ROOT", concat (text "mkdir -p " ∷ network_dir ∷ []))
    ∷ (
      text "write 10-static-preboot.network",
      write_command (text "10-static-preboot.network")
          (primary_network a.primary_mac a.server_ip a.gateway_ip a.ipv6_net a.vlan_config),
    )
    ∷ vlan_steps a

-- Commands up to the first that fails: those that were sent, in order, and the result.
unfoldable pub run_steps : (Text → Output) → List (Text × Text) → List Text × Done
unfolding check_run
run_steps run [] = ([], ok tt)
run_steps run ((what, command) ∷ rest) = elim (check_run run what command) [
  | err e ↦ (command ∷ [], err e)
  | ok u ↦ let (sent, r) = run_steps run rest in (command ∷ sent, r)
]

-- Behind the mount: the deferred unmount is sent last, and its result is dropped.
unfoldable pub while_mounted : (Text → Output) → Text → List (Text × Text) → Done → List Text × Done
unfolding run_steps
while_mounted run mount steps (err e) = (mount ∷ [], err e)
while_mounted run mount steps (ok u) =
    let (sent, r) = run_steps run steps in (mount ∷ sent ++ unmount_command ∷ [], r)

-- writePreBootNetwork, with the commands that it sends.
unfoldable pub write_pre_boot_network : (Text → Output) → Text → Addresses → List Text × Done
unfolding while_mounted mounted_steps
write_pre_boot_network run install_disk a =
    let part = install_disk ++ text "p9" in
    if is_empty a.server_ip || is_empty a.gateway_ip
    then ([], err (text "cannot write pre-boot network: serverIP or gatewayIP empty"))
    else while_mounted run (mount_command part) (mounted_steps a)
        (check_run run (concat (text "mount ROOT partition " ∷ part ∷ [])) (mount_command part))
