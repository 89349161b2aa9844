-- ===== src/Provision/Graph/Moves.antt =====
-- The moves of a machine's state in reconcileNormal.
use mathlib.Core.Path.{subst, subst₂}
use cluster_api_provider_het.Prelude.{ℕ, ◌≡◌, inl, inr, refl, sym, ap, arith, Bool, true, false}
use cluster_api_provider_het.Text.{Text}
use cluster_api_provider_het.Result.{Result-cases}
use cluster_api_provider_het.Exec.Within.{after}
use cluster_api_provider_het.Api.Host.{Host}
use cluster_api_provider_het.Api.Machine.{
  RobotMachine, ProvisioningState, none_yet, activating_rescue, in_rescue, installing,
  booting_talos, applying_config, waiting_for_boot, booting_flatcar,
}
use cluster_api_provider_het.Api.Capi.{Machine}
use cluster_api_provider_het.Policy.{provisioning_may_become_destructive}
use cluster_api_provider_het.World.{World}
use cluster_api_provider_het.Provision.{Env, is_flatcar}
use cluster_api_provider_het.Provision.Secrets.{get_bootstrap_data, get_ssh_public_key}
use cluster_api_provider_het.Provision.Rescue.{rescue_shell, state_check_rescue_active}
use cluster_api_provider_het.Provision.Install.{
  with_rescue_check, rescue_check, in_rescue_do, install_talos_in_rescue, state_install_talos,
}
use cluster_api_provider_het.Provision.Install.Flatcar.{
  install_flatcar_in_rescue, state_install_flatcar,
}
use cluster_api_provider_het.Provision.Config.{state_apply_config}
use cluster_api_provider_het.Provision.Driven.{reconcile_normal-cases, addressed}
use cluster_api_provider_het.Provision.Normal.{run_state, reconcile_normal}
use cluster_api_provider_het.Provision.Graph.{
  Step, stay, arm, installed, booted_flatcar, maintenance, configured, running, joined, state_of,
}
use cluster_api_provider_het.Provision.Graph.Install.{
  install_talos-Installs, install_flatcar-Installs,
}
use cluster_api_provider_het.Provision.Graph.Rescue.{
  step, activate, check_rescue, in_rescue_step, wait_install,
}
use cluster_api_provider_het.Provision.Graph.Boot.{
  wait_flatcar, maintenance_mode, apply_config, for_boot, flatcar_boot,
}

module _ (env : Env) where
  install_flatcar :
      (machine : Machine) (hrh : Host) (id : ℕ) (ip : Text) (w : World)
      → state_of w ≡ in_rescue
      → Step in_rescue (state_of (after (state_install_flatcar env machine hrh id ip) w))
  unfolding state_install_flatcar in_rescue_do
  install_flatcar machine hrh id ip w s = elim (Result-cases (get_bootstrap_data env machine)) [
    | inr (e, absent) ↦ step s installed (inl (ground arith))
    | inl (b, there) ↦ elim (Result-cases (get_ssh_public_key env w.cluster)) [
      | inr (e, no_key) ↦ step s installed (inl (ground arith))
      | inl (key, some_key) ↦
          let install = install_flatcar_in_rescue env hrh id ip b key in
          let e : after (state_install_flatcar env machine hrh id ip) w
              ≡ after (with_rescue_check env id ip install (rescue_check env ip w)) w =
            ground arith in
          subst (λ v. Step in_rescue (state_of v)) (sym e)
            (in_rescue_step env id ip install w (rescue_check env ip w) s
              (install_flatcar-Installs env id ip hrh b key))
    ]
  ]

  run_state-Step :
      (machine : Machine) (hrh : Host) (state : ProvisioningState) (flatcar : Bool) (w : World)
      → state_of w ≡ state
      → Step state (state_of (after (run_state env machine hrh state flatcar) w))
  unfolding run_state provisioning_may_become_destructive state_check_rescue_active
      state_install_talos in_rescue_do state_apply_config
  run_state-Step machine hrh none_yet flatcar w s =
      step s (arm {s = none_yet} refl) (activate env hrh.spec.server_id w)
  run_state-Step machine hrh activating_rescue flatcar w s =
      check_rescue env hrh.spec.server_id hrh.spec.server_ip (rescue_shell env hrh.spec.server_ip w)
        w s
  run_state-Step machine hrh in_rescue true w s =
      install_flatcar machine hrh hrh.spec.server_id hrh.spec.server_ip w s
  run_state-Step machine hrh in_rescue false w s =
      in_rescue_step env hrh.spec.server_id hrh.spec.server_ip
        (install_talos_in_rescue env hrh.spec.server_id hrh.spec.server_ip) w
        (rescue_check env hrh.spec.server_ip w) s
        (install_talos-Installs env hrh.spec.server_id hrh.spec.server_ip)
  run_state-Step machine hrh installing true w s =
      step s booted_flatcar (wait_flatcar env hrh.spec.server_ip w)
  run_state-Step machine hrh installing false w s =
      wait_install env hrh.spec.server_id hrh.spec.server_ip w s
  run_state-Step machine hrh booting_talos flatcar w s =
      step s maintenance (maintenance_mode env machine hrh.spec.server_ip w)
  run_state-Step machine hrh applying_config flatcar w s = step s configured (
      apply_config env hrh hrh.spec.server_id hrh.spec.server_ip (get_bootstrap_data env machine) w)
  run_state-Step machine hrh waiting_for_boot flatcar w s =
      step s running (for_boot env hrh.spec.server_ip w)
  run_state-Step machine hrh booting_flatcar flatcar w s =
      step s joined (flatcar_boot env hrh.spec.server_ip w)
  run_state-Step machine hrh ProvisioningState.provisioned flatcar w s = subst (Step _) (sym s) stay
  run_state-Step machine hrh ProvisioningState.deleting flatcar w s = subst (Step _) (sym s) stay
  run_state-Step machine hrh ProvisioningState.failed flatcar w s = subst (Step _) (sym s) stay
  run_state-Step machine hrh (ProvisioningState.other name) flatcar w s =
      subst (Step _) (sym s) stay

-- reconcileNormal, which drives a machine that is not being deleted, leaves the machine in its state
-- or takes it along one of its transitions, whatever the outside answers and whether or not it fails.
pub reconcile_normal-Step :
    (env : Env) (machine : Machine) (w : World)
    → Step (state_of w) (state_of (after (reconcile_normal env machine) w))
reconcile_normal-Step env machine w = elim (reconcile_normal-cases env machine w) [
  | inl quiet ↦ subst (Step (state_of w)) (sym (quiet.1)) stay
  | inr driven ↦
      let start = addressed driven.host driven.found in
      let same : state_of start ≡ state_of w =
        ap (λ (m : RobotMachine). m.status.provisioning_state) (driven.frame.2) in
      subst₂ Step same (ap state_of (sym driven.stepped)) (
        run_state-Step env machine driven.host (state_of start) (is_flatcar start.machine) start
          refl)
]
