-- ===== src/Remediation/Budget.antt =====
-- The count of resets along the reconciles of a remediation.
use cluster_api_provider_het.Prelude.{ℕ, ◌+◌, ◌<◌, ◌≡◌, ◌⊎◌, inl, inr, refl, some, List, arith}
use cluster_api_provider_het.Result.{Done, ok, err, Result-cases}
use cluster_api_provider_het.Exec.Within.{after}
use cluster_api_provider_het.Api.Host.{Host}
use cluster_api_provider_het.Api.Cluster.{RobotCluster}
use cluster_api_provider_het.Api.Capi.{Machine}
use cluster_api_provider_het.Api.Remediation.{Remediation, Phase}
use cluster_api_provider_het.Policy.{authorize_automated_hardware_reset}
use cluster_api_provider_het.World.{Call}
use cluster_api_provider_het.Robot.{robot_reset_server}
use cluster_api_provider_het.Provision.{Env}
use cluster_api_provider_het.Provision.Secrets.{build_robot_client}
use cluster_api_provider_het.Remediation.{
  Treatment, Answers, resolve_server_and_cluster, reset_attempt, authorized_reset,
  reconcile_initial, reconcile_running, reconcile_waiting, run_phase, reconcile_remediation,
}

-- What one reconcile does to the count: it stays, the first reset sets it to 1, or a further reset
-- below the limit adds one to it.
abbrev pub Counts : Remediation → Remediation → Type 0
Counts r s =
    (s.retry_limit ≡ r.retry_limit)
    × (((s.retry_count ≡ r.retry_count)
          × ((s.phase ≡ r.phase) ⊎ (s.phase ≡ Phase.waiting) ⊎ (s.phase ≡ Phase.deleting)))
        ⊎ ((s.phase ≡ Phase.running)
            × (((r.phase ≡ Phase.initial) × (s.retry_count ≡ 1))
                ⊎ ((r.retry_count < r.retry_limit) × (s.retry_count ≡ r.retry_count + 1)))))

abbrev rest : Treatment → Remediation
rest t = t.remediation

-- An attempt with a count: nothing changes, or the reset is counted.
attempt-count :
    (env : Env) (host : Host) (hrc : RobotCluster) (count : ℕ) (g : Done) (t : Treatment)
    → (rest (after (authorized_reset env host hrc count g) t) ≡ t.remediation)
      ⊎ (rest (after (authorized_reset env host hrc count g) t) ≡ record t.remediation {
        phase = Phase.running;
        last_remediated = some env.now;
        retry_count = count;
      })
unfolding authorized_reset reset_attempt
attempt-count env host hrc count (err e) t = inl refl
attempt-count env host hrc count (ok u) t = elim (Result-cases (build_robot_client env hrc)) [
  | inr (e, bad) ↦ inl (ground arith)
  | inl (v, good) ↦ elim (Result-cases (robot_reset_server env.http host.spec.server_id)) [
    | inr (e, bad) ↦ inl (ground arith)
    | inl (x, done) ↦ inr (ground arith)
  ]
]

run_phase-Counts :
    (env : Env) (target : Host × RobotCluster) (phase : Phase) (t : Treatment)
    → t.remediation.phase ≡ phase
    → Counts t.remediation (rest (after (run_phase env target phase) t))
unfolding run_phase reconcile_initial reconcile_running reconcile_waiting
run_phase-Counts env (host, hrc) Phase.initial t h =
    ground (arith, attempt-count env host hrc 1 (authorize_automated_hardware_reset (some host)) t)
run_phase-Counts env (host, hrc) Phase.running t h = ground arith
run_phase-Counts env (host, hrc) Phase.waiting t h = ground (
  arith,
  attempt-count env host hrc (t.remediation.retry_count + 1)
      (authorize_automated_hardware_reset (some host)) t,
)
run_phase-Counts env (host, hrc) Phase.deleting t h = ground arith
run_phase-Counts env (host, hrc) (Phase.other s) t h = ground arith

pub reconcile-Counts :
    (env : Env) (a : Answers) (machine : Machine) (t : Treatment)
    → Counts t.remediation (rest (after (reconcile_remediation env a machine) t))
unfolding reconcile_remediation
reconcile-Counts env a machine t = elim (Result-cases (resolve_server_and_cluster a machine)) [
  | inr (e, bad) ↦ ground arith
  | inl (target, good) ↦ ground (arith, run_phase-Counts env target t.remediation.phase t refl)
]

-- The remediations that reconciles lead to, whatever is asked and answered in between.
pub data Reached (r : Remediation) : Remediation → Type 0 where
  start : Reached r r
  again :
      {s : Remediation} (env : Env) (a : Answers) (machine : Machine) (calls : List Call)
      → Reached r s
      → Reached r (
          rest (
            after
              (reconcile_remediation env a machine)
              (record { remediation = s; calls = calls })))
