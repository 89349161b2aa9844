-- ===== src/Ownership/Hardware.antt =====
-- recordHostHardwareDetails: the hardware that the rescue shell reports, kept on the host.
use cluster_api_provider_het.Prelude.{some, [], ◌∷◌, if◌then◌else◌}
use cluster_api_provider_het.Text.{Text, text, concat, is_empty, sort_strings}
use cluster_api_provider_het.Exec.{Exec, pure, wrap, ◌>>=◌}
use cluster_api_provider_het.Api.Host.{HardwareDetails}
use cluster_api_provider_het.World.{World, Kube, get_host, patch_host}
use cluster_api_provider_het.Ownership.Claim.{get_error}
use cluster_api_provider_het.SshRescue.Hardware.{HardwareInfo}

unfoldable pub hardware_details : HardwareInfo → HardwareDetails
unfolding sort_strings
hardware_details hw = record {
  primary_mac = hw.primary_mac;
  gateway_ip = hw.gateway_ip;
  nvme_disks = sort_strings hw.nvme_disks;
  ceph_disks = sort_strings hw.ceph_disks;
  by_id_paths = hw.by_id_paths;
}

unfoldable pub record_host_hardware_details :
    Kube → Text → Text → HardwareInfo → Exec World (Unit {0})
record_host_hardware_details k namespace name hw = if is_empty name then pure tt else do
  hrh ← wrap (get_error (text "get host ") name) (get_host k namespace name)
  patch_host k (text "init HRH patch helper")
      (concat (text "patch host " ∷ name ∷ text " hardware details" ∷ []))
      (record hrh {
        status = record (hrh.status) { hardware_details = some (hardware_details hw) };
      })
