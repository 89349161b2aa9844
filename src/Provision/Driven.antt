-- ===== src/Provision/Driven.antt =====
-- The cases of reconcileNormal: what stops it before the step of a state, and that step.
use mathlib.Core.Path.{subst}
use cluster_api_provider_het.Prelude.{
  ◌≡◌, ◌⊎◌, inl, inr, refl, sym, ap, ◌∙◌, arith, true, Bool-cases, [], some,
}
use cluster_api_provider_het.Text.{Text, text}
use cluster_api_provider_het.Result.{Done, ok, err, map_err, Result-cases}
use cluster_api_provider_het.Exec.{proceed}
use cluster_api_provider_het.Exec.Within.{after}
use cluster_api_provider_het.Api.Host.{Host}
use cluster_api_provider_het.Api.Machine.{ReadyCondition}
use cluster_api_provider_het.Api.Capi.{Machine}
use cluster_api_provider_het.World.{World}
use cluster_api_provider_het.Ownership.Claim.{resolve_host}
use cluster_api_provider_het.Ownership.Adoption.{backfill_provisioned_host_claim}
use cluster_api_provider_het.Ownership.Within.{Frame, resolve_host-Frame}
use cluster_api_provider_het.Ownership.Kept.{backfill-Frame, ensure_provisioned-Frame}
use cluster_api_provider_het.Provision.{Env, with_status, wrapped, is_flatcar}
use cluster_api_provider_het.Provision.Secrets.{build_robot_client}
use cluster_api_provider_het.Provision.Normal.{
  keep_provisioned, gate, run_state, drive, pass_gate, mark_denied, with_host, provision,
  reconcile_normal, addresses_of, is_provisioned,
}

-- Nothing is sent, and the provisioning state stays.
abbrev pub Quiet : World → World → Type 0
Quiet w w' =
    (w'.calls ≡ w.calls)
    × (w'.machine.status.provisioning_state ≡ w.machine.status.provisioning_state)

abbrev pub step_of : Env → Machine → Host → World → World
step_of env machine hrh w =
    after (run_state env machine hrh w.machine.status.provisioning_state (is_flatcar w.machine)) w

pub pair_eq : {A B : Type 0} {p : A × B} {a : A} {b : B} → p.0 ≡ a → p.1 ≡ b → p ≡ (a, b)
pair_eq h g i = (h i, g i)

-- The world behind the marks of a provisioned machine.
abbrev marked_ready : World → World
marked_ready w =
    with_status
      (λ st. record st {
        ready = true;
        initialization = some true;
        ready_condition = some ReadyCondition.is_true;
      })
      w

drive-cases :
    (env : Env) (machine : Machine) (hrh : Host) (w : World)
    → Quiet w (after (drive env machine hrh) w)
      ⊎ (after (drive env machine hrh) w ≡ step_of env machine hrh w)
unfolding drive
drive-cases env machine hrh w = elim (Result-cases (build_robot_client env w.cluster)) [
  | inr (e, bad) ↦ inl (ground arith)
  | inl (u, good) ↦ inr (ground arith)
]

-- The world behind the gate.
abbrev pub addressed : Host → World → World
addressed hrh w = with_status (λ st. record st { addresses = addresses_of w.cluster hrh }) w

pass_gate-cases :
    (env : Env) (machine : Machine) (hrh : Host) (g : Done) (w : World)
    → Quiet w (after (pass_gate env machine hrh g) w)
      ⊎ ((g ≡ ok tt) × (after (pass_gate env machine hrh g) w ≡ step_of env machine hrh w))
unfolding pass_gate mark_denied
pass_gate-cases env machine hrh (err e) w = inl (refl, refl)
pass_gate-cases env machine hrh (ok u) w = elim (drive-cases env machine hrh w) [
  | inl quiet ↦ inl quiet
  | inr step ↦ inr (refl, step)
]

-- The step that a reconcile comes to: the host that is resolved, a gate that is open, and the step
-- of the state that the machine was in.
pub record Driven (env : Env) (machine : Machine) (w w' : World) : Type 0 where
  pub host : Host
  pub found : World
  pub resolved : resolve_host env.kube w ≡ (ok host, found)
  pub frame : Frame w found
  pub passed : gate env machine host found.machine ≡ ok tt
  pub stepped : w' ≡ step_of env machine host (addressed host found)

keep-Quiet : (env : Env) (w : World) → Quiet w (after (keep_provisioned env) w)
unfolding keep_provisioned
keep-Quiet env w =
    let filled = after (backfill_provisioned_host_claim env.kube) w in
    let marked = marked_ready filled in
    let direct = marked_ready w in
    ground (
      arith,
      backfill-Frame env.kube w,
      ensure_provisioned-Frame env.kube marked,
      ensure_provisioned-Frame env.kube direct,
    )

unresolved :
    (env : Env) (machine : Machine) (w found : World) (e : Text)
    → resolve_host env.kube w ≡ (err e, found)
    → Frame w found
    → Quiet w (after (provision env machine) w)
unfolding provision
unresolved env machine w found e bad frame = ground arith

pub resolved_step :
    (env : Env) (machine : Machine) (w found : World) (hrh : Host)
    → resolve_host env.kube w ≡ (ok hrh, found)
    → after (provision env machine) w
      ≡ after (pass_gate env machine hrh (gate env machine hrh found.machine)) (addressed hrh found)
unfolding provision with_host
resolved_step env machine w found hrh good =
    ap
      (λ p.
        (proceed (with_host env machine) (map_err (wrapped (text "resolve host") []) (p.0))
          (p.1)).1)
      good

provision-cases :
    (env : Env) (machine : Machine) (w : World)
    → Quiet w (after (provision env machine) w)
      ⊎ Driven env machine w (after (provision env machine) w)
provision-cases env machine w =
    let found = after (resolve_host env.kube) w in
    let frame = resolve_host-Frame env.kube w in
    elim (Result-cases ((resolve_host env.kube w).0)) [
      | inr (e, bad) ↦ inl (unresolved env machine w found e (pair_eq bad refl) frame)
      | inl (hrh, good) ↦
          let start = addressed hrh found in
          let to_gate = resolved_step env machine w found hrh (pair_eq good refl) in
          elim (pass_gate-cases env machine hrh (gate env machine hrh found.machine) start) [
            | inl quiet ↦ inl (subst (Quiet w) (sym to_gate) (ground (arith, quiet, frame)))
            | inr (passed, stepped) ↦ inr (record {
              host = hrh;
              found = found;
              resolved = pair_eq good refl;
              frame = frame;
              passed = passed;
              stepped = to_gate ∙ stepped;
            })
          ]
    ]

pub reconcile_normal-cases :
    (env : Env) (machine : Machine) (w : World)
    → Quiet w (after (reconcile_normal env machine) w)
      ⊎ Driven env machine w (after (reconcile_normal env machine) w)
unfolding reconcile_normal
reconcile_normal-cases env machine w =
    elim (Bool-cases (is_provisioned w.machine.status.provisioning_state)) [
      | inl done ↦
          let e : after (reconcile_normal env machine) w ≡ after (keep_provisioned env) w =
            ground arith in
          inl (subst (Quiet w) (sym e) (keep-Quiet env w))
      | inr under_way ↦
          let e : after (reconcile_normal env machine) w ≡ after (provision env machine) w =
            ground arith in
          subst (λ v. Quiet w v ⊎ Driven env machine w v) (sym e) (provision-cases env machine w)
    ]
