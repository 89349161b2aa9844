-- ===== src/Provision/Resets.antt =====
-- The resets that reconcileNormal sends, against the cooldown.
use mathlib.Core.Path.{subst, subst₂}
use cluster_api_provider_het.Prelude.{
  ℕ, ◌+◌, ◌<◌, ◌≡◌, inl, inr, refl, sym, ap, ◌∙◌, some, List, arith, true,
}
use cluster_api_provider_het.Text.{Text}
use cluster_api_provider_het.Exec.Within.{after}
use cluster_api_provider_het.Api.Machine.{RobotMachine}
use cluster_api_provider_het.Api.Capi.{Machine}
use cluster_api_provider_het.World.{World, Call}
use cluster_api_provider_het.World.Calls.{Adds, same, is_apply, is_no_reset}
use cluster_api_provider_het.Provision.{Env, is_flatcar}
use cluster_api_provider_het.Provision.Rescue.{state_activate_rescue, reset_cooldown}
use cluster_api_provider_het.Provision.Cooldown.{state_activate_rescue-wait}
use cluster_api_provider_het.Provision.Keeps.{Allows}
use cluster_api_provider_het.Provision.Driven.{reconcile_normal-cases, addressed}
use cluster_api_provider_het.Provision.Sends.{run_state-Sends}
use cluster_api_provider_het.Provision.Normal.{reconcile_normal}

kept : {l m : List Call} → m ≡ l → Adds is_no_reset l m
kept {l} e = subst (λ m. Adds is_no_reset l m) (sym e) same

no_resets : (env : Env) (id : ℕ) (ip : Text) → Allows is_no_reset env id ip
no_resets env id ip = (λ disks. refl, λ disk. refl, λ disk ignition. refl, refl, refl, refl)

apply_only : (c : Call) → is_apply c ≡ true → is_no_reset c ≡ true
apply_only c h = ground arith

-- A world in which the last reset was at `t`.
abbrev Cools : ℕ → World → Type 0
Cools t w = w.machine.status.last_reset_time ≡ some t

activate :
    (env : Env) (t : ℕ)
    → env.now < t + reset_cooldown
    → (id : ℕ) (w : World) → Cools t w
    → Adds is_no_reset w.calls (after (state_activate_rescue env id) w).calls
activate env t recent id w c =
    kept (ap (λ p. p.1.calls) ((state_activate_rescue-wait env id w t c recent).0))

-- Within two minutes of the last reset that the machine's status records, reconcileNormal, which
-- drives a machine that is not being deleted, sends no reset, whatever state the machine is in and
-- whatever the outside answers.
pub reconcile_normal-cooldown :
    (env : Env) (machine : Machine) (w : World) (t : ℕ)
    → w.machine.status.last_reset_time ≡ some t
    → env.now < t + 120000000000
    → Adds is_no_reset w.calls (after (reconcile_normal env machine) w).calls
reconcile_normal-cooldown env machine w t last recent =
    elim (reconcile_normal-cases env machine w) [
      | inl quiet ↦ kept (quiet.0)
      | inr step ↦
          let start = addressed step.host step.found in
          let cools : start.machine.status.last_reset_time ≡ some t =
            ap (λ (m : RobotMachine). m.status.last_reset_time) (step.frame.2) ∙ last in
          subst₂ (λ l m. Adds is_no_reset l m) (step.frame.0)
            (ap (λ (v : World). v.calls) (sym step.stepped))
            (run_state-Sends is_no_reset (Cools t) env (activate env t recent) (λ c v i. i)
              apply_only machine step.host start.machine.status.provisioning_state
              (is_flatcar start.machine) start cools (λ a b c. refl)
              λ a v. no_resets env step.host.spec.server_id step.host.spec.server_ip)
    ]
