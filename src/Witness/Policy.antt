-- ===== src/Witness/Policy.antt =====
-- The policy at concrete hosts.
use cluster_api_provider_het.Prelude.{◌≡◌, ◌↔◌, refl, false, some}
use cluster_api_provider_het.Result.{ok}
use cluster_api_provider_het.Api.Host.{LifecycleClass, DestructivePolicy}
use cluster_api_provider_het.Policy.{
  authorize_destructive_provisioning_for, authorize_automated_hardware_reset,
}
use cluster_api_provider_het.Policy.Exact.{
  MayWipe, authorize-iff-MayWipe, authorize_reset-iff-compute, authorize-authorize_reset,
}
use cluster_api_provider_het.Witness.{compute_host, new_machine, capi_machine, kube}

authorize-iff-MayWipe_example :
    (authorize_destructive_provisioning_for 7 kube.releases
        (some new_machine)
        (some capi_machine)
        (some compute_host)
      ≡ ok tt)
    ↔ MayWipe 7 kube.releases capi_machine compute_host
authorize-iff-MayWipe_example =
    authorize-iff-MayWipe 7 kube.releases capi_machine compute_host new_machine

authorize_reset-iff-compute_example :
    (authorize_automated_hardware_reset (some compute_host) ≡ ok tt) ↔ (
      (compute_host.spec.maintenance_mode ≡ false)
      × (compute_host.spec.lifecycle_class ≡ LifecycleClass.compute)
      × (compute_host.spec.policy ≡ DestructivePolicy.always_clean_slate))
authorize_reset-iff-compute_example = authorize_reset-iff-compute compute_host

authorize-authorize_reset_example :
    authorize_destructive_provisioning_for 7 kube.releases
      (some new_machine)
      (some capi_machine)
      (some compute_host)
    ≡ ok tt
authorize-authorize_reset_example =
    authorize-authorize_reset 7 kube.releases new_machine capi_machine compute_host
      (unfold authorize_automated_hardware_reset in refl)
