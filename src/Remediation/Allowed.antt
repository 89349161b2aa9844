-- ===== src/Remediation/Allowed.antt =====
-- The resets of one reconcile of a remediation, and of two.
use cluster_api_provider_het.Prelude.{
  ℕ, ◌+◌, ◌<◌, ◌≡◌, ◌⊎◌, inl, inr, refl, ◌∷◌, arith, Bool-cases, some,
}
use cluster_api_provider_het.Result.{Done, ok, err, Result-cases}
use cluster_api_provider_het.Exec.Within.{after}
use cluster_api_provider_het.Api.Host.{Host}
use cluster_api_provider_het.Api.Cluster.{RobotCluster}
use cluster_api_provider_het.Api.Capi.{Machine}
use cluster_api_provider_het.Api.Remediation.{Phase}
use cluster_api_provider_het.Policy.{authorize_automated_hardware_reset}
use cluster_api_provider_het.World.{reset_server}
use cluster_api_provider_het.Robot.{robot_reset_server}
use cluster_api_provider_het.Provision.{Env}
use cluster_api_provider_het.Provision.Secrets.{build_robot_client}
use cluster_api_provider_het.Remediation.{
  Treatment, Answers, resolve_server_and_cluster, reset_attempt, authorized_reset,
  reconcile_initial, reconcile_running, reconcile_waiting, run_phase, reconcile_remediation,
  is_deleting,
}

-- The calls of an attempt: none, or one reset that the gate let through.
abbrev Attempted : Host → Done → Treatment → Treatment → Type 0
Attempted host g t u =
    (u.calls ≡ t.calls) ⊎ ((g ≡ ok tt) × (u.calls ≡ reset_server host.spec.server_id ∷ t.calls))

attempt :
    (env : Env) (host : Host) (hrc : RobotCluster) (count : ℕ) (g : Done) (t : Treatment)
    → Attempted host g t (after (authorized_reset env host hrc count g) t)
unfolding authorized_reset reset_attempt
attempt env host hrc count (err e) t = inl refl
attempt env host hrc count (ok u) t = elim (Result-cases (build_robot_client env hrc)) [
  | inr (e, bad) ↦ inl (ground arith)
  | inl (v, good) ↦ elim (Result-cases (robot_reset_server env.http host.spec.server_id)) [
    | inr (e, bad) ↦ inr (refl, ground arith)
    | inl (x, done) ↦ inr (refl, ground arith)
  ]
]

run_phase-Attempted :
    (env : Env) (host : Host) (hrc : RobotCluster) (phase : Phase) (t : Treatment)
    → Attempted host
        (authorize_automated_hardware_reset (some host))
        t
        (after (run_phase env (host, hrc) phase) t)
unfolding run_phase reconcile_initial reconcile_running reconcile_waiting
run_phase-Attempted env host hrc Phase.initial t =
    attempt env host hrc 1 (authorize_automated_hardware_reset (some host)) t
run_phase-Attempted env host hrc Phase.running t = inl refl
run_phase-Attempted env host hrc Phase.waiting t = ground (
  arith,
  attempt env host hrc (t.remediation.retry_count + 1)
      (authorize_automated_hardware_reset (some host)) t,
)
run_phase-Attempted env host hrc Phase.deleting t = inl refl
run_phase-Attempted env host hrc (Phase.other s) t = inl refl

-- One reconcile of a remediation sends at most one reset, to the server of the host that the
-- machine's status names, and only where the host's policy allows an automated reset.
pub reconcile_remediation-allowed :
    (env : Env) (a : Answers) (machine : Machine) (t : Treatment)
    → ((after (reconcile_remediation env a machine) t).calls ≡ t.calls)
      ⊎ ((host : Host) × (hrc : RobotCluster) × (resolve_server_and_cluster a machine
            ≡ ok (host, hrc))
          × (authorize_automated_hardware_reset (some host) ≡ ok tt)
          × ((after (reconcile_remediation env a machine) t).calls
              ≡ reset_server host.spec.server_id ∷ t.calls))
unfolding reconcile_remediation
reconcile_remediation-allowed env a machine t =
    elim (Result-cases (resolve_server_and_cluster a machine)) [
      | inr (e, bad) ↦ inl (ground arith)
      | inl ((host, hrc), good) ↦ elim (run_phase-Attempted env host hrc t.remediation.phase t) [
        | inl nothing ↦ inl (ground (arith, nothing, good))
        | inr (allowed, sent) ↦ elim (Bool-cases (is_deleting t.remediation.phase)) [
          | inl over ↦ inl (ground arith)
          | inr active ↦ inr (host, hrc, good, allowed, ground (arith, sent, good))
        ]
      ]
    ]

-- In the running phase the time since the last reset is not looked at: where retries are left, the
-- policy allows it and the Robot API answers, the next two reconciles send a further reset, however
-- soon they come.
pub reconcile_remediation-untimed :
    (env : Env) (a : Answers) (machine : Machine) (t : Treatment) (host : Host) (hrc : RobotCluster)
    → t.remediation.phase ≡ Phase.running
    → t.remediation.retry_count < t.remediation.retry_limit
    → resolve_server_and_cluster a machine ≡ ok (host, hrc)
    → authorize_automated_hardware_reset (some host) ≡ ok tt
    → build_robot_client env hrc ≡ ok tt
    → robot_reset_server env.http host.spec.server_id ≡ ok tt
    → (after
        (reconcile_remediation env a machine)
        (after (reconcile_remediation env a machine) t)).calls
      ≡ reset_server host.spec.server_id ∷ t.calls
unfolding reconcile_remediation run_phase reconcile_running reconcile_waiting authorized_reset
    reset_attempt
reconcile_remediation-untimed env a machine t host hrc p n r g b s = ground arith
