-- ===== src/Provision/Sends.antt =====
-- The calls of a state's step, for a predicate p on calls that the step's parts keep.
use mathlib.Core.Path.{subst}
use cluster_api_provider_het.Prelude.{
  ℕ, ◌≡◌, inl, inr, refl, sym, Option, none, some, List, ◌∷◌, arith, Bool, true, false, Bool-cases,
}
use cluster_api_provider_het.Text.{Text, text}
use cluster_api_provider_het.Result.{Result, ok, err, map_err, Result-cases}
use cluster_api_provider_het.Exec.{Exec, lift}
use cluster_api_provider_het.Exec.Within.{after, then-within}
use cluster_api_provider_het.Api.Host.{Host}
use cluster_api_provider_het.Api.Machine.{
  ProvisioningState, none_yet, activating_rescue, in_rescue, installing, booting_talos,
  applying_config, waiting_for_boot, booting_flatcar,
}
use cluster_api_provider_het.Api.Capi.{Machine}
use cluster_api_provider_het.World.{World, Call, wipe_system_disk}
use cluster_api_provider_het.World.Calls.{Adds, same, send, Adds-trans, Adds-weaken, is_apply}
use cluster_api_provider_het.Policy.{provisioning_may_become_destructive}
use cluster_api_provider_het.SshRescue.Client.{connect}
use cluster_api_provider_het.Robot.{robot_rescue_status}
use cluster_api_provider_het.Talos.{is_up, is_in_maintenance_mode}
use cluster_api_provider_het.Provision.{Env, Outcome, send_call, set_state, wrapped}
use cluster_api_provider_het.Provision.Secrets.{
  get_bootstrap_data, get_ssh_private_key, get_ssh_public_key,
}
use cluster_api_provider_het.Provision.Rescue.{
  state_activate_rescue, call_wipe_system_disk, check_rescue_status, with_rescue_shell,
  rescue_shell, state_check_rescue_active,
}
use cluster_api_provider_het.Provision.Install.{
  with_rescue_check, rescue_check, in_rescue_do, install_talos_in_rescue, state_install_talos,
}
use cluster_api_provider_het.Provision.Install.Flatcar.{
  install_flatcar_in_rescue, state_install_flatcar,
}
use cluster_api_provider_het.Provision.Boot.{state_wait_install, state_wait_flatcar_install}
use cluster_api_provider_het.Provision.Keeps.{Allows, install_talos-Adds, install_flatcar-Adds}
use cluster_api_provider_het.Provision.Gate.{run_state-Adds}
use cluster_api_provider_het.Provision.Normal.{run_state}

-- Port 22 is open, and the shell behind it says that it is the rescue system.
abbrev pub is_verified : Option (Result (Text × Result Bool)) → Bool
is_verified (some (ok (key, ok b))) = b
is_verified _ = false

-- `p` holds of the calls outside the rescue system, in a world with the invariant.
module _ (p : Call → Bool) (Inv : World → Type 0) (env : Env)
    (activate : (id : ℕ) (w : World)
      → Inv w
      → Adds p w.calls (after (state_activate_rescue env id) w).calls)
    (kept_inv : (c : Call) (w : World) → Inv w → Inv (record w { calls = c ∷ w.calls }))
    (applies : (c : Call) → is_apply c ≡ true → p c ≡ true) where
  abbrev R : World → World → Type 0
  R w w' = Adds p w.calls w'.calls

  kept : {l m : List Call} → m ≡ l → Adds p l m
  kept {l} e = subst (λ m. Adds p l m) (sym e) same

  check_status :
      (id : ℕ) (ip : Text) (w : World)
      → Inv w
      → (is_up env.grpc ip ≡ true → p (wipe_system_disk ip) ≡ true)
      → R w (after (check_rescue_status env id ip) w)
  unfolding check_rescue_status call_wipe_system_disk send_call
  check_status id ip w c wipes = elim (Result-cases (robot_rescue_status env.http id)) [
    | inr (e, bad) ↦ kept (ground arith)
    | inl (active, good) ↦ elim (Bool-cases (is_up env.grpc ip)) [
      | inr down ↦ kept (ground arith)
      | inl up ↦
          let wiped = record w { calls = wipe_system_disk ip ∷ w.calls } in
          let e : after (check_rescue_status env id ip) w
              ≡ after (state_activate_rescue env id) wiped =
            ground arith in
          subst (R w) (sym e) (
            Adds-trans p (send (wipe_system_disk ip) (wipes up) same)
              (activate id wiped (kept_inv (wipe_system_disk ip) w c)))
    ]
  ]

  check_rescue :
      (id : ℕ) (ip : Text) (o : Option Bool) (w : World)
      → Inv w
      → (o ≡ none → is_up env.grpc ip ≡ true → p (wipe_system_disk ip) ≡ true)
      → R w (after (with_rescue_shell env id ip o) w)
  unfolding with_rescue_shell set_state
  check_rescue id ip none w c wipes = check_status id ip w c (wipes refl)
  check_rescue id ip (some true) w c wipes = same
  check_rescue id ip (some false) w c wipes = activate id w c

  in_rescue_Adds :
      (id : ℕ) (ip : Text) (install : Exec World Outcome) (w : World)
      (o : Option (Result (Text × Result Bool)))
      → Inv w
      → (is_verified o ≡ true → (u : World) → R u (after install u))
      → R w (after (with_rescue_check env id ip install o) w)
  unfolding with_rescue_check set_state
  in_rescue_Adds id ip install w none c h = same
  in_rescue_Adds id ip install w (some (err e)) c h = same
  in_rescue_Adds id ip install w (some (ok (key, err e))) c h = same
  in_rescue_Adds id ip install w (some (ok (key, ok false))) c h = activate id w c
  in_rescue_Adds id ip install w (some (ok (key, ok true))) c h =
      then-within R (λ s. same) (λ u v x. Adds-trans p)
        (lift (map_err (wrapped (text "SSH connect to rescue ") ip) (connect env.network ip key)))
        install w same (h refl)

  wait_install :
      (id : ℕ) (ip : Text) (w : World) → Inv w → R w (after (state_wait_install env id ip) w)
  unfolding state_wait_install set_state
  wait_install id ip w c = elim (Bool-cases (is_in_maintenance_mode env.grpc ip)) [
    | inl ready ↦ kept (ground arith)
    | inr busy ↦ elim (Bool-cases (is_up env.grpc ip)) [
      | inr down ↦ kept (ground arith)
      | inl up ↦
          let e : after (state_wait_install env id ip) w ≡ after (state_activate_rescue env id) w =
            ground arith in
          subst (R w) (sym e) (activate id w c)
    ]
  ]

  wait_flatcar : (ip : Text) (w : World) → R w (after (state_wait_flatcar_install env ip) w)
  unfolding state_wait_flatcar_install set_state
  wait_flatcar ip w = elim (Result-cases (get_ssh_private_key env w.cluster)) [
    | inr (e, absent) ↦ kept (ground arith)
    | inl (key, there) ↦ kept (ground arith)
  ]

  install_flatcar :
      (machine : Machine) (hrh : Host) (id : ℕ) (ip : Text) (w : World)
      → Inv w
      → (is_verified (rescue_check env ip w) ≡ true → Allows p env id ip)
      → R w (after (state_install_flatcar env machine hrh id ip) w)
  unfolding state_install_flatcar in_rescue_do
  install_flatcar machine hrh id ip w c h = elim (Result-cases (get_bootstrap_data env machine)) [
    | inr (e, absent) ↦ kept (ground arith)
    | inl (b, there) ↦ elim (Result-cases (get_ssh_public_key env w.cluster)) [
      | inr (e, no_key) ↦ kept (ground arith)
      | inl (key, some_key) ↦
          let install = install_flatcar_in_rescue env hrh id ip b key in
          let e : after (state_install_flatcar env machine hrh id ip) w
              ≡ after (with_rescue_check env id ip install (rescue_check env ip w)) w =
            ground arith in
          subst (R w) (sym e) (
            in_rescue_Adds id ip install w (rescue_check env ip w) c
              λ v. install_flatcar-Adds p env id ip (h v) hrh b key)
    ]
  ]

  -- In the state of the rescue system and behind a verified shell, p must hold of what an
  -- installation sends; where the rescue system is awaited, of the wipe of a Talos that is up.
  pub run_state-Sends :
      (machine : Machine) (hrh : Host) (state : ProvisioningState) (flatcar : Bool) (w : World)
      → Inv w
      → (state ≡ activating_rescue
          → rescue_shell env hrh.spec.server_ip w ≡ none
          → is_up env.grpc hrh.spec.server_ip ≡ true
          → p (wipe_system_disk hrh.spec.server_ip) ≡ true)
      → (state ≡ in_rescue
          → is_verified (rescue_check env hrh.spec.server_ip w) ≡ true
          → Allows p env hrh.spec.server_id hrh.spec.server_ip)
      → R w (after (run_state env machine hrh state flatcar) w)
  unfolding run_state provisioning_may_become_destructive state_check_rescue_active
      state_install_talos in_rescue_do
  run_state-Sends machine hrh none_yet flatcar w c x h = activate hrh.spec.server_id w c
  run_state-Sends machine hrh activating_rescue flatcar w c x h =
      check_rescue hrh.spec.server_id hrh.spec.server_ip (rescue_shell env hrh.spec.server_ip w) w c
        (x refl)
  run_state-Sends machine hrh in_rescue true w c x h =
      install_flatcar machine hrh hrh.spec.server_id hrh.spec.server_ip w c (h refl)
  run_state-Sends machine hrh in_rescue false w c x h =
      in_rescue_Adds hrh.spec.server_id hrh.spec.server_ip
        (install_talos_in_rescue env hrh.spec.server_id hrh.spec.server_ip) w
        (rescue_check env hrh.spec.server_ip w) c
        λ v. install_talos-Adds p env hrh.spec.server_id hrh.spec.server_ip (h refl v)
  run_state-Sends machine hrh installing true w c x h = wait_flatcar hrh.spec.server_ip w
  run_state-Sends machine hrh installing false w c x h =
      wait_install hrh.spec.server_id hrh.spec.server_ip w c
  run_state-Sends machine hrh booting_talos flatcar w c x h =
      Adds-weaken is_apply p applies (run_state-Adds env machine hrh booting_talos flatcar w refl)
  run_state-Sends machine hrh applying_config flatcar w c x h =
      Adds-weaken is_apply p applies (run_state-Adds env machine hrh applying_config flatcar w refl)
  run_state-Sends machine hrh waiting_for_boot flatcar w c x h =
      Adds-weaken is_apply p applies
        (run_state-Adds env machine hrh waiting_for_boot flatcar w refl)
  run_state-Sends machine hrh booting_flatcar flatcar w c x h =
      Adds-weaken is_apply p applies (run_state-Adds env machine hrh booting_flatcar flatcar w refl)
  run_state-Sends machine hrh ProvisioningState.provisioned flatcar w c x h = same
  run_state-Sends machine hrh ProvisioningState.deleting flatcar w c x h = same
  run_state-Sends machine hrh ProvisioningState.failed flatcar w c x h = same
  run_state-Sends machine hrh (ProvisioningState.other s) flatcar w c x h = same
