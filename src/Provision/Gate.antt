-- ===== src/Provision/Gate.antt =====
-- The calls of reconcileNormal, against the policy gate.
use mathlib.Core.Path.{subst, subst₂}
use mathlib.Core.Bool.{true≢false}
use cluster_api_provider_het.Prelude.{
  ℕ, ◌≡◌, ◌⊎◌, inl, inr, refl, sym, ap, ◌∙◌, Option, none, some, List, ◌∷◌, arith, Bool, true,
  false, Bool-cases,
}
use cluster_api_provider_het.Text.{Text}
use cluster_api_provider_het.Result.{Result, ok, err, Result-cases}
use cluster_api_provider_het.Exec.Within.{after}
use cluster_api_provider_het.Api.Host.{Host}
use cluster_api_provider_het.Api.Machine.{
  RobotMachine, ProvisioningState, none_yet, activating_rescue, in_rescue, installing,
  booting_talos, applying_config, waiting_for_boot, booting_flatcar,
}
use cluster_api_provider_het.Api.Capi.{Machine}
use cluster_api_provider_het.Policy.{
  Releases, authorize_destructive_provisioning_for, provisioning_may_become_destructive,
}
use cluster_api_provider_het.World.{World, Call, apply_config}
use cluster_api_provider_het.World.Calls.{Adds, same, send, is_apply}
use cluster_api_provider_het.Ownership.Claim.{resolve_host}
use cluster_api_provider_het.Provision.{Env, send_call, set_state, is_flatcar}
use cluster_api_provider_het.Provision.Secrets.{get_bootstrap_data, get_ssh_private_key}
use cluster_api_provider_het.Provision.Boot.{
  set_endpoint, ensure_endpoint, state_wait_talos_maintenance_mode, provisioned_now,
  state_wait_for_boot, state_wait_flatcar_boot,
}
use cluster_api_provider_het.Provision.Install.{set_provider_id}
use cluster_api_provider_het.Provision.Config.{
  build_config, apply_built, with_bootstrap, state_apply_config,
}
use cluster_api_provider_het.Provision.Driven.{Driven, reconcile_normal-cases, addressed}
use cluster_api_provider_het.Provision.Normal.{gate, run_state, reconcile_normal}

-- The authorisation does not look at the machine beyond its presence.
authorize-any :
    (now : ℕ) (releases : Releases) (a b : RobotMachine) (machine : Option Machine)
    (h : Option Host)
    → authorize_destructive_provisioning_for now releases (some a) machine h
      ≡ authorize_destructive_provisioning_for now releases (some b) machine h
unfolding authorize_destructive_provisioning_for
authorize-any now releases a b machine none = refl
authorize-any now releases a b machine (some h) = refl

kept : {l m : List Call} → m ≡ l → Adds is_apply l m
kept {l} e = subst (λ m. Adds is_apply l m) (sym e) same

maintenance-calls :
    (env : Env) (machine : Machine) (ip : Text) (w : World)
    → (after (state_wait_talos_maintenance_mode env machine ip) w).calls ≡ w.calls
unfolding state_wait_talos_maintenance_mode ensure_endpoint set_endpoint set_state
maintenance-calls env machine ip w = ground arith

for_boot-calls :
    (env : Env) (ip : Text) (w : World) → (after (state_wait_for_boot env ip) w).calls ≡ w.calls
unfolding state_wait_for_boot provisioned_now
for_boot-calls env ip w = ground arith

flatcar_boot-calls :
    (env : Env) (ip : Text) (w : World) → (after (state_wait_flatcar_boot env ip) w).calls ≡ w.calls
unfolding state_wait_flatcar_boot provisioned_now
flatcar_boot-calls env ip w = elim (Result-cases (get_ssh_private_key env w.cluster)) [
  | inr (e, absent) ↦ ground arith
  | inl (key, there) ↦ ground arith
]

with_bootstrap-Adds :
    (env : Env) (hrh : Host) (id : ℕ) (ip : Text) (r : Result Text) (w : World)
    → Adds is_apply w.calls (after (with_bootstrap env hrh id ip r) w).calls
unfolding with_bootstrap apply_built send_call set_provider_id set_state
with_bootstrap-Adds env hrh id ip (err e) w = same
with_bootstrap-Adds env hrh id ip (ok b) w =
    elim (Result-cases (build_config env.codec w.machine w.cluster hrh id b)) [
      | inr (e, bad) ↦ kept (ground arith)
      | inl (config, good) ↦
          let sent : (after (with_bootstrap env hrh id ip (ok b)) w).calls
              ≡ apply_config ip config ∷ w.calls =
            ground arith in
          subst (λ l. Adds is_apply w.calls l) (sym sent) (send (apply_config ip config) refl same)
    ]

-- In a state behind the gate the machine is at most given its configuration.
pub run_state-Adds :
    (env : Env) (machine : Machine) (hrh : Host) (state : ProvisioningState) (flatcar : Bool)
    (w : World)
    → provisioning_may_become_destructive state ≡ false
    → Adds is_apply w.calls (after (run_state env machine hrh state flatcar) w).calls
unfolding run_state provisioning_may_become_destructive state_apply_config
run_state-Adds env machine hrh none_yet flatcar w h = elim (true≢false h) [ ]
run_state-Adds env machine hrh activating_rescue flatcar w h = elim (true≢false h) [ ]
run_state-Adds env machine hrh in_rescue flatcar w h = elim (true≢false h) [ ]
run_state-Adds env machine hrh installing flatcar w h = elim (true≢false h) [ ]
run_state-Adds env machine hrh booting_talos flatcar w h =
    kept (maintenance-calls env machine hrh.spec.server_ip w)
run_state-Adds env machine hrh applying_config flatcar w h =
    with_bootstrap-Adds env hrh hrh.spec.server_id hrh.spec.server_ip
      (get_bootstrap_data env machine) w
run_state-Adds env machine hrh waiting_for_boot flatcar w h =
    kept (for_boot-calls env hrh.spec.server_ip w)
run_state-Adds env machine hrh booting_flatcar flatcar w h =
    kept (flatcar_boot-calls env hrh.spec.server_ip w)
run_state-Adds env machine hrh ProvisioningState.provisioned flatcar w h = same
run_state-Adds env machine hrh ProvisioningState.deleting flatcar w h = same
run_state-Adds env machine hrh ProvisioningState.failed flatcar w h = same
run_state-Adds env machine hrh (ProvisioningState.other s) flatcar w h = same

gate-behind :
    (env : Env) (machine : Machine) (hrh : Host) (hrm : RobotMachine)
    → provisioning_may_become_destructive hrm.status.provisioning_state ≡ true
    → gate env machine hrh hrm ≡ ok tt
    → authorize_destructive_provisioning_for env.now env.kube.releases
        (some hrm)
        (some machine)
        (some hrh)
      ≡ ok tt
unfolding gate
gate-behind env machine hrh hrm behind passed = ground arith

driven-Adds :
    (env : Env) (machine : Machine) (w w' : World) (step : Driven env machine w w')
    → provisioning_may_become_destructive step.found.machine.status.provisioning_state ≡ false
    → Adds is_apply w.calls w'.calls
driven-Adds env machine w w' step before =
    let start = addressed step.host step.found in
    subst₂ (λ l m. Adds is_apply l m) (step.frame.0)
      (ap (λ (v : World). v.calls) (sym step.stepped))
      (run_state-Adds env machine step.host start.machine.status.provisioning_state
        (is_flatcar start.machine) start before)

-- A reconcile at most gives the machine its configuration, or the policy allowed that the host that
-- it resolved is destroyed: whatever the answers of the outside, no other call leaves before that.
pub reconcile_normal-gated :
    (env : Env) (machine : Machine) (w : World)
    → Adds is_apply w.calls (after (reconcile_normal env machine) w).calls
      ⊎ ((hrh : Host) × (found : World) × (resolve_host env.kube w ≡ (ok hrh, found))
          × (authorize_destructive_provisioning_for env.now env.kube.releases
                (some w.machine)
                (some machine)
                (some hrh)
              ≡ ok tt))
reconcile_normal-gated env machine w = elim (reconcile_normal-cases env machine w) [
  | inl quiet ↦ inl (kept (quiet.0))
  | inr step ↦
      let found = step.found in
      elim (Bool-cases
        (provisioning_may_become_destructive found.machine.status.provisioning_state)) [
          | inl behind ↦ inr (
            step.host,
            found,
            step.resolved,
            authorize-any env.now env.kube.releases w.machine found.machine (some machine)
                  (some step.host)
                ∙ gate-behind env machine step.host found.machine behind step.passed,
          )
          | inr before ↦ inl (driven-Adds env machine w _ step before)
        ]
]
