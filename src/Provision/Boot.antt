-- ===== src/Provision/Boot.antt =====
-- The states that wait for the installed system: stateWaitInstall, stateWaitTalosMaintenanceMode,
-- stateWaitForBoot, stateWaitFlatcarInstall and stateWaitFlatcarBoot.
use cluster_api_provider_het.Prelude.{ℕ, Bool, false, ◌&&◌, none, some, [], if◌then◌else◌}
use cluster_api_provider_het.Text.{Text, text, is_empty}
use cluster_api_provider_het.Result.{Result, ok, err, map_err}
use cluster_api_provider_het.Exec.{Exec, pure, lift, modify, ◌>>=◌, ◌>>◌}
use cluster_api_provider_het.Api.Machine.{booting_talos, applying_config, booting_flatcar}
use cluster_api_provider_het.Api.Capi.{Machine}
use cluster_api_provider_het.World.{World}
use cluster_api_provider_het.SshRescue.Client.{is_flatcar_up, check_flatcar_bootstrap_complete}
use cluster_api_provider_het.Talos.{is_up, is_in_maintenance_mode}
use cluster_api_provider_het.Provision.{
  Env, Outcome, done, requeue_after, with_status, set_state, mark_provisioned, wrapped,
  requeue_after_short, requeue_after_medium,
}
use cluster_api_provider_het.Provision.Secrets.{get_ssh_private_key}
use cluster_api_provider_het.Provision.Rescue.{state_activate_rescue}

unfoldable pub state_wait_install : Env → ℕ → Text → Exec World Outcome
unfolding set_state state_activate_rescue
state_wait_install env id ip =
    if is_in_maintenance_mode env.grpc ip
    then (do set_state booting_talos; pure (requeue_after requeue_after_short))
    else if is_up env.grpc ip
    then state_activate_rescue env id
    else pure (requeue_after requeue_after_medium)

-- HRC.Spec.ControlPlaneEndpoint, with the patch of the cluster object. The endpoint in memory is
-- set before the patch, so it stays set when the patch fails.
unfoldable pub set_endpoint : Env → Text → Exec World (Unit {0})
set_endpoint env ip w = elim env.cluster_helper_error [
  | some e ↦ (err (wrapped (text "init HRC patch helper") [] e), w)
  | none ↦
      let hrc = record w.cluster { control_plane_endpoint = record { host = ip; port = 6443 } } in
      let w' = record w { cluster = hrc } in
      elim (env.patch_cluster_error hrc) [
        | some e ↦ (err (wrapped (text "patch control plane endpoint") [] e), w')
        | none ↦ (ok tt, w')
      ]
]

unfoldable pub ensure_endpoint : Env → Machine → Text → Exec World (Unit {0})
unfolding set_endpoint
ensure_endpoint env machine ip w =
    (if machine.is_control_plane && is_empty w.cluster.control_plane_endpoint.host
        then set_endpoint env ip
        else pure tt)
      w

unfoldable pub state_wait_talos_maintenance_mode : Env → Machine → Text → Exec World Outcome
unfolding ensure_endpoint set_state
state_wait_talos_maintenance_mode env machine ip =
    if is_in_maintenance_mode env.grpc ip
    then (do
      ensure_endpoint env machine ip
      set_state applying_config
      pure (requeue_after requeue_after_short))
    else pure (requeue_after requeue_after_medium)

unfoldable pub provisioned_now : Exec World Outcome
unfolding mark_provisioned
provisioned_now = do modify (with_status mark_provisioned); pure done

unfoldable pub state_wait_for_boot : Env → Text → Exec World Outcome
unfolding provisioned_now
state_wait_for_boot env ip =
    if is_up env.grpc ip then provisioned_now else pure (requeue_after requeue_after_medium)

-- getSSHPrivateKey with the message of the two Flatcar states.
flatcar_key : Env → World → Result Text
flatcar_key env w =
    map_err (wrapped (text "get SSH private key") []) (get_ssh_private_key env w.cluster)

unfoldable pub state_wait_flatcar_install : Env → Text → Exec World Outcome
unfolding set_state flatcar_key
state_wait_flatcar_install env ip w =
    (do
      key ← lift (flatcar_key env w)
      if is_flatcar_up env.network ip key
          then (do set_state booting_flatcar; pure (requeue_after requeue_after_short))
          else pure (requeue_after requeue_after_medium))
      w

-- Is the bootstrap complete? An error counts as no.
unfoldable pub is_complete : Result Bool → Bool
is_complete (ok b) = b
is_complete (err e) = false

unfoldable pub state_wait_flatcar_boot : Env → Text → Exec World Outcome
unfolding provisioned_now flatcar_key is_complete
state_wait_flatcar_boot env ip w =
    (do
      key ← lift (flatcar_key env w)
      if is_complete (check_flatcar_bootstrap_complete env.network ip key)
          then provisioned_now
          else pure (requeue_after requeue_after_medium))
      w
