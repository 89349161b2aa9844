-- ===== src/Remediation/Ends.antt =====
-- Rounds of reconciles of one remediation.
use cluster_api_provider_het.Prelude.{
  ℕ, zero, suc, ◌+◌, ◌-◌, ◌*◌, ◌≤◌, ◌<◌, ◌≡◌, refl, ap, ◌∙◌, some, List, ◌∷◌, arith,
}
use cluster_api_provider_het.Result.{ok}
use cluster_api_provider_het.Exec.Within.{after}
use cluster_api_provider_het.Api.Host.{Host}
use cluster_api_provider_het.Api.Cluster.{RobotCluster}
use cluster_api_provider_het.Api.Capi.{Machine}
use cluster_api_provider_het.Api.Remediation.{Phase}
use cluster_api_provider_het.Policy.{authorize_automated_hardware_reset}
use cluster_api_provider_het.World.{Call, reset_server}
use cluster_api_provider_het.Robot.{robot_reset_server}
use cluster_api_provider_het.Provision.{Env}
use cluster_api_provider_het.Provision.Secrets.{build_robot_client}
use cluster_api_provider_het.Remediation.{
  Treatment, Answers, resolve_server_and_cluster, reset_attempt, authorized_reset,
  reconcile_initial, reconcile_running, reconcile_waiting, run_phase, reconcile_remediation,
}

-- `n` reconciles, one after the other.
unfoldable pub rounds : Env → Answers → Machine → ℕ → Treatment → Treatment
rounds env a machine zero t = t
rounds env a machine (suc n) t =
    rounds env a machine n (after (reconcile_remediation env a machine) t)

-- `n` resets of the server, before the calls that had left.
unfoldable pub resets : ℕ → ℕ → List Call → List Call
resets id zero calls = calls
resets id (suc n) calls = reset_server id ∷ resets id n calls

resets_shift :
    (id n : ℕ) (calls : List Call)
    → resets id n (reset_server id ∷ calls) ≡ reset_server id ∷ resets id n calls
unfolding resets
resets_shift id zero calls = refl
resets_shift id (suc n) calls = rw (resets_shift id n calls)

-- 2 * k + 1
span : ℕ → ℕ
span zero = 1
span (suc k) = suc (suc (span k))

span_lem : (k : ℕ) → span k ≡ k * 2 + 1
unfolding span
span_lem zero = omega arith
span_lem (suc k) = omega (arith, span_lem k)

resets_eq :
    (id : ℕ) {m n : ℕ} (calls : List Call)
    → m ≡ suc n
    → reset_server id ∷ resets id n calls ≡ resets id m calls
unfolding resets
resets_eq id calls e = rw e

module _ (env : Env) (a : Answers) (machine : Machine) (host : Host) (hrc : RobotCluster)
    (resolves : resolve_server_and_cluster a machine ≡ ok (host, hrc))
    (allows : authorize_automated_hardware_reset (some host) ≡ ok tt)
    (builds : build_robot_client env hrc ≡ ok tt)
    (answers : robot_reset_server env.http host.spec.server_id ≡ ok tt) where
  -- The reset of an attempt, counted.
  abbrev reset_once : Treatment → ℕ → Treatment
  reset_once t count = record {
    remediation = record t.remediation {
      phase = Phase.running;
      last_remediated = some env.now;
      retry_count = count;
    };
    calls = reset_server host.spec.server_id ∷ t.calls;
  }

  abbrev in_phase : Treatment → Phase → Treatment
  in_phase t phase = record t { remediation = record t.remediation { phase = phase } }

  initial_step :
      (t : Treatment)
      → t.remediation.phase ≡ Phase.initial
      → after (reconcile_remediation env a machine) t ≡ reset_once t 1
  unfolding reconcile_remediation run_phase reconcile_initial authorized_reset reset_attempt
  initial_step t p = ground arith

  running_step :
      (t : Treatment)
      → t.remediation.phase ≡ Phase.running
      → after (reconcile_remediation env a machine) t ≡ in_phase t Phase.waiting
  unfolding reconcile_remediation run_phase reconcile_running
  running_step t p = ground arith

  retry_step :
      (t : Treatment)
      → t.remediation.phase ≡ Phase.waiting
      → t.remediation.retry_count < t.remediation.retry_limit
      → after (reconcile_remediation env a machine) t ≡ reset_once t (t.remediation.retry_count + 1)
  unfolding reconcile_remediation run_phase reconcile_waiting authorized_reset reset_attempt
  retry_step t p n = ground arith

  stop_step :
      (t : Treatment)
      → t.remediation.phase ≡ Phase.waiting
      → t.remediation.retry_limit ≤ t.remediation.retry_count
      → after (reconcile_remediation env a machine) t ≡ in_phase t Phase.deleting
  unfolding reconcile_remediation run_phase reconcile_waiting
  stop_step t p n = ground arith

  two_rounds :
      (n : ℕ) (t u v : Treatment)
      → after (reconcile_remediation env a machine) t ≡ u
      → after (reconcile_remediation env a machine) u ≡ v
      → rounds env a machine (suc (suc n)) t ≡ rounds env a machine n v
  unfolding rounds
  two_rounds n t u v p q =
      ap (rounds env a machine n) (ap (after (reconcile_remediation env a machine)) p ∙ q)

  -- Where `k` retries are left, the end comes after a reset and a wait for each, and one more.
  waiting_rounds :
      (k : ℕ) (t : Treatment)
      → t.remediation.phase ≡ Phase.waiting
      → t.remediation.retry_count + k ≡ t.remediation.retry_limit
      → ((rounds env a machine (span k) t).remediation.phase ≡ Phase.deleting)
        × ((rounds env a machine (span k) t).calls ≡ resets host.spec.server_id k t.calls)
  unfolding rounds resets span
  waiting_rounds zero t p e = rw (stop_step t p (omega arith)) (refl, refl)
  waiting_rounds (suc k) t p e =
      let u = reset_once t (t.remediation.retry_count + 1) in
      let (over, sent) = waiting_rounds k (in_phase u Phase.waiting) refl (omega arith) in
      let next =
        two_rounds (span k) t u (in_phase u Phase.waiting) (retry_step t p (omega arith))
          (running_step u refl) in
      rw next (over, sent ∙ resets_shift host.spec.server_id k t.calls)

  -- Where the machine's server and cluster are found, the host's policy allows it and the Robot API
  -- answers, a new remediation with a retry limit of at least 1 is over after two reconciles for
  -- each retry and one more: it then is in the terminal phase, and it has reset the server of the
  -- machine's host exactly as many times as the limit says.
  pub rounds-ends :
      (t : Treatment)
      → t.remediation.phase ≡ Phase.initial
      → 1 ≤ t.remediation.retry_limit
      → ((rounds env a machine (t.remediation.retry_limit * 2 + 1) t).remediation.phase
          ≡ Phase.deleting)
        × ((rounds env a machine (t.remediation.retry_limit * 2 + 1) t).calls
            ≡ resets host.spec.server_id t.remediation.retry_limit t.calls)
  rounds-ends t p n =
      let k = t.remediation.retry_limit - 1 in
      let limit : t.remediation.retry_limit ≡ suc k = omega arith in
      let length : t.remediation.retry_limit * 2 + 1 ≡ suc (suc (span k)) =
        omega (arith, span_lem k) in
      let u = reset_once t 1 in
      let (over, sent) = waiting_rounds k (in_phase u Phase.waiting) refl (omega arith) in
      let next =
        two_rounds (span k) t u (in_phase u Phase.waiting) (initial_step t p)
          (running_step u refl) in
      rw (length, next)
        (
          over,
          sent
              ∙ resets_shift host.spec.server_id k t.calls
              ∙ resets_eq host.spec.server_id t.calls limit,
        )
