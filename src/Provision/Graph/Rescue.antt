-- ===== src/Provision/Graph/Rescue.antt =====
-- The moves into the rescue system, out of it, and around it.
use mathlib.Core.Path.{subst}
use cluster_api_provider_het.Prelude.{
  ℕ, ◌≡◌, ◌⊎◌, inl, inr, refl, sym, ◌∙◌, Option, none, some, ◌∷◌, arith, Bool, true, false,
  Bool-cases, ltb,
}
use cluster_api_provider_het.Text.{Text, text}
use cluster_api_provider_het.Result.{Result, ok, err, map_err, Result-cases}
use cluster_api_provider_het.Exec.{Exec, lift}
use cluster_api_provider_het.Exec.Within.{after, then-within}
use cluster_api_provider_het.Api.Machine.{
  ProvisioningState, activating_rescue, in_rescue, installing,
}
use cluster_api_provider_het.Policy.{provisioning_may_become_destructive}
use cluster_api_provider_het.World.{World, wipe_system_disk}
use cluster_api_provider_het.Robot.{robot_activate_rescue, robot_reset_server, robot_rescue_status}
use cluster_api_provider_het.Talos.{is_up, is_in_maintenance_mode}
use cluster_api_provider_het.SshRescue.Client.{connect}
use cluster_api_provider_het.Provision.{Env, Outcome, send_call, set_state, wrapped}
use cluster_api_provider_het.Provision.Secrets.{get_ssh_key_fingerprint}
use cluster_api_provider_het.Provision.Rescue.{
  rescue_and_reset, call_activate_rescue, call_reset_server, state_activate_rescue,
  call_wipe_system_disk, check_rescue_status, with_rescue_shell, cooldown_left,
}
use cluster_api_provider_het.Provision.Install.{with_rescue_check}
use cluster_api_provider_het.Provision.Boot.{state_wait_install}
use cluster_api_provider_het.Provision.Graph.{
  Step, stay, arm, rescued, lost, installed, booted, state_of,
}
use cluster_api_provider_het.Provision.Graph.Install.{Installs, Installs-trans, here}

-- The state stays, or becomes t.
abbrev pub To : ProvisioningState → ProvisioningState → ProvisioningState → Type 0
To t a b = (b ≡ a) ⊎ (b ≡ t)

-- A step from s, where that is the state before.
pub step : {s t a b : ProvisioningState} → a ≡ s → Step s t → To t a b → Step s b
step {s} e move (inl kept) = subst (Step s) (sym (kept ∙ e)) stay
step {s} e move (inr moved) = subst (Step s) (sym moved) move

module _ (env : Env) where
  pub activate :
      (id : ℕ) (w : World)
      → To activating_rescue (state_of w) (state_of (after (state_activate_rescue env id) w))
  unfolding state_activate_rescue rescue_and_reset call_activate_rescue call_reset_server send_call
  activate id w = elim (Result-cases (get_ssh_key_fingerprint env w.cluster)) [
    | inr (e, absent) ↦ inl (ground arith)
    | inl (f, there) ↦ elim (Result-cases (robot_activate_rescue env.http id f)) [
      | inr (e, bad) ↦ inl (ground arith)
      | inl (a, good) ↦ elim (Result-cases (robot_reset_server env.http id)) [
        | inr (e, bad') ↦ inl (ground arith)
        | inl (u, good') ↦
            elim (Bool-cases (ltb 0 (cooldown_left env.now w.machine.status.last_reset_time))) [
              | inl waits ↦ inl (ground arith)
              | inr over ↦ inr (ground arith)
            ]
      ]
    ]
  ]

  check_status :
      (id : ℕ) (ip : Text) (w : World)
      → To activating_rescue (state_of w) (state_of (after (check_rescue_status env id ip) w))
  unfolding check_rescue_status call_wipe_system_disk send_call
  check_status id ip w = elim (Result-cases (robot_rescue_status env.http id)) [
    | inr (e, bad) ↦ inl (ground arith)
    | inl (active, good) ↦ elim (Bool-cases (is_up env.grpc ip)) [
      | inr down ↦ inl (ground arith)
      | inl up ↦
          let wiped = record w { calls = wipe_system_disk ip ∷ w.calls } in
          let e : after (check_rescue_status env id ip) w
              ≡ after (state_activate_rescue env id) wiped =
            ground arith in
          subst (λ v. To activating_rescue (state_of w) (state_of v)) (sym e) (activate id wiped)
    ]
  ]

  pub check_rescue :
      (id : ℕ) (ip : Text) (o : Option Bool) (w : World)
      → state_of w ≡ activating_rescue
      → Step activating_rescue (state_of (after (with_rescue_shell env id ip o) w))
  unfolding with_rescue_shell set_state provisioning_may_become_destructive
  check_rescue id ip none w s = step s (arm {s = activating_rescue} refl) (check_status id ip w)
  check_rescue id ip (some true) w s = rescued
  check_rescue id ip (some false) w s = step s (arm {s = activating_rescue} refl) (activate id w)

  pub in_rescue_step :
      (id : ℕ) (ip : Text) (install : Exec World Outcome) (w : World)
      (o : Option (Result (Text × Result Bool)))
      → state_of w ≡ in_rescue
      → ((u : World) → Installs u (after install u))
      → Step in_rescue (state_of (after (with_rescue_check env id ip install o) w))
  unfolding with_rescue_check set_state provisioning_may_become_destructive
  in_rescue_step id ip install w none s h = lost
  in_rescue_step id ip install w (some (err e)) s h = step s installed (inl refl)
  in_rescue_step id ip install w (some (ok (key, err e))) s h = step s installed (inl refl)
  in_rescue_step id ip install w (some (ok (key, ok false))) s h =
      step s (arm {s = in_rescue} refl) (activate id w)
  in_rescue_step id ip install w (some (ok (key, ok true))) s h = step s installed (
      then-within Installs here Installs-trans
        (lift (map_err (wrapped (text "SSH connect to rescue ") ip) (connect env.network ip key)))
        install w (here w) h)

  pub wait_install :
      (id : ℕ) (ip : Text) (w : World)
      → state_of w ≡ installing
      → Step installing (state_of (after (state_wait_install env id ip) w))
  unfolding state_wait_install set_state provisioning_may_become_destructive
  wait_install id ip w s = elim (Bool-cases (is_in_maintenance_mode env.grpc ip)) [
    | inl ready ↦ step s booted (inr (ground arith))
    | inr busy ↦ elim (Bool-cases (is_up env.grpc ip)) [
      | inr down ↦ step s booted (inl (ground arith))
      | inl up ↦
          let e : after (state_wait_install env id ip) w ≡ after (state_activate_rescue env id) w =
            ground arith in
          step s (arm {s = installing} refl)
            (subst (λ v. To activating_rescue (state_of w) (state_of v)) (sym e) (activate id w))
    ]
  ]
