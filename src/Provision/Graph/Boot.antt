-- ===== src/Provision/Graph/Boot.antt =====
-- The moves of an installed system towards a node that runs.
use cluster_api_provider_het.Prelude.{ℕ, inl, inr, refl, arith}
use cluster_api_provider_het.Text.{Text}
use cluster_api_provider_het.Result.{Result, ok, err, Result-cases}
use cluster_api_provider_het.Exec.Within.{after}
use cluster_api_provider_het.Api.Host.{Host}
use cluster_api_provider_het.Api.Machine.{
  ProvisioningState, applying_config, waiting_for_boot, booting_flatcar,
}
use cluster_api_provider_het.Api.Capi.{Machine}
use cluster_api_provider_het.World.{World}
use cluster_api_provider_het.Provision.{Env, send_call, set_state, mark_provisioned}
use cluster_api_provider_het.Provision.Secrets.{get_ssh_private_key}
use cluster_api_provider_het.Provision.Install.{set_provider_id}
use cluster_api_provider_het.Provision.Boot.{
  set_endpoint, ensure_endpoint, state_wait_talos_maintenance_mode, provisioned_now,
  state_wait_for_boot, state_wait_flatcar_install, state_wait_flatcar_boot,
}
use cluster_api_provider_het.Provision.Config.{build_config, apply_built, with_bootstrap}
use cluster_api_provider_het.Provision.Graph.{state_of}
use cluster_api_provider_het.Provision.Graph.Rescue.{To}

module _ (env : Env) where
  pub wait_flatcar :
      (ip : Text) (w : World)
      → To booting_flatcar (state_of w) (state_of (after (state_wait_flatcar_install env ip) w))
  unfolding state_wait_flatcar_install set_state
  wait_flatcar ip w = elim (Result-cases (get_ssh_private_key env w.cluster)) [
    | inr (e, absent) ↦ inl (ground arith)
    | inl (key, there) ↦ ground arith
  ]

  pub maintenance_mode :
      (machine : Machine) (ip : Text) (w : World)
      → To applying_config
          (state_of w)
          (state_of (after (state_wait_talos_maintenance_mode env machine ip) w))
  unfolding state_wait_talos_maintenance_mode ensure_endpoint set_endpoint set_state
  maintenance_mode machine ip w = ground arith

  pub apply_config :
      (hrh : Host) (id : ℕ) (ip : Text) (r : Result Text) (w : World)
      → To waiting_for_boot (state_of w) (state_of (after (with_bootstrap env hrh id ip r) w))
  unfolding with_bootstrap apply_built send_call set_provider_id set_state
  apply_config hrh id ip (err e) w = inl refl
  apply_config hrh id ip (ok b) w =
      elim (Result-cases (build_config env.codec w.machine w.cluster hrh id b)) [
        | inr (e, bad) ↦ inl (ground arith)
        | inl (config, good) ↦ ground arith
      ]

  pub for_boot :
      (ip : Text) (w : World)
      → To ProvisioningState.provisioned
          (state_of w)
          (state_of (after (state_wait_for_boot env ip) w))
  unfolding state_wait_for_boot provisioned_now mark_provisioned
  for_boot ip w = ground arith

  pub flatcar_boot :
      (ip : Text) (w : World)
      → To ProvisioningState.provisioned
          (state_of w)
          (state_of (after (state_wait_flatcar_boot env ip) w))
  unfolding state_wait_flatcar_boot provisioned_now mark_provisioned
  flatcar_boot ip w = elim (Result-cases (get_ssh_private_key env w.cluster)) [
    | inr (e, absent) ↦ inl (ground arith)
    | inl (key, there) ↦ ground arith
  ]
