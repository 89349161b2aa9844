-- ===== src/Witness/Watch.antt =====
-- A release that wakes one of two machines.
use mathlib.Core.List.{Memᴰ}
use cluster_api_provider_het.Prelude.{◌↔◌, refl, List, [], ◌∷◌}
use cluster_api_provider_het.Text.{Text, text}
use cluster_api_provider_het.Result.{Result, ok}
use cluster_api_provider_het.Api.Release.{HostRelease, wipe_and_reinstall}
use cluster_api_provider_het.Provision.Watch.{OwnerReference, Owned, map_host_release_to_machines}
use cluster_api_provider_het.Provision.Watch.Woken.{Wanted, map_host_release_to_machines-Wanted}
use cluster_api_provider_het.Witness.{new_machine}

abbrev released : HostRelease
released = record {
  namespace = text "ns";
  host_ref = text "h1";
  machine_ref = record { name = text "cm1"; namespace = text "ns"; uid = text "u1" };
  approved_action = wipe_and_reinstall;
  expires_at = 900;
}

abbrev machine_owner : Text → OwnerReference
machine_owner uid = record {
  api_version = text "cluster.x-k8s.io/v1beta1";
  kind = text "Machine";
  name = text "cm1";
  uid = uid;
}

abbrev owned_machines : Text → Result (List Owned)
owned_machines ns = ok (
    (new_machine, machine_owner (text "u1") ∷ [])
    ∷ (record new_machine { name = text "m2" }, machine_owner (text "u2") ∷ [])
    ∷ [])

map_host_release_to_machines-Wanted_example :
    Memᴰ
      (text "ns", text "m1")
      (map_host_release_to_machines (text "cluster.x-k8s.io/v1beta1") owned_machines released)
    ↔ Wanted
        (text "cluster.x-k8s.io/v1beta1")
        released
        ((new_machine, machine_owner (text "u1") ∷ [])
          ∷ (record new_machine { name = text "m2" }, machine_owner (text "u2") ∷ [])
          ∷ [])
        (text "ns", text "m1")
map_host_release_to_machines-Wanted_example =
    map_host_release_to_machines-Wanted (text "cluster.x-k8s.io/v1beta1") owned_machines released
      ((new_machine, machine_owner (text "u1") ∷ [])
        ∷ (record new_machine { name = text "m2" }, machine_owner (text "u2") ∷ [])
        ∷ [])
      (text "ns", text "m1") refl
