-- ===== src/Provision/Errors.antt =====
-- The ends of a reconcile of a live machine, and a machine in StateError in the next reconcile.
use mathlib.Core.Path.{subst}
use cluster_api_provider_het.Prelude.{
  ℕ, zero, suc, ◌+◌, ◌&&◌, not, is_some, if◌then◌else◌, Option, sym, false, ◌<◌, ◌≤◌, ◌≡◌, inl, inr,
  refl, ap, ◌∙◌, none, some, [], arith, true, Bool-cases, ltb,
}
use cluster_api_provider_het.Text.{Text, text}
use cluster_api_provider_het.Result.{Result, ok, err, map_err}
use cluster_api_provider_het.Exec.{proceed}
use cluster_api_provider_het.Exec.Within.{after}
use cluster_api_provider_het.Api.Host.{Host}
use cluster_api_provider_het.Api.Machine.{RobotMachine, ProvisioningState, Severity, is_false}
use cluster_api_provider_het.Api.Capi.{Machine}
use cluster_api_provider_het.Policy.{provisioning_may_become_destructive}
use cluster_api_provider_het.World.{World}
use cluster_api_provider_het.Ownership.Claim.{resolve_host}
use cluster_api_provider_het.Ownership.Within.{Frame, resolve_host-Frame}
use cluster_api_provider_het.Provision.{Env, Outcome, done, requeue_after, with_status, wrapped}
use cluster_api_provider_het.Provision.Secrets.{build_robot_client}
use cluster_api_provider_het.Provision.Retry.{compute_backoff, is_permanent_error}
use cluster_api_provider_het.Provision.Normal.{
  reconcile_normal, provision, with_host, pass_gate, gate, drive, run_state,
}
use cluster_api_provider_het.Provision.Driven.{addressed}
use cluster_api_provider_het.Provision.Graph.{state_of}
use cluster_api_provider_het.Provision.Reconcile.{
  timeout_message, mark_retry, is_under_way, mark_failed, mark_success, on_error, classify,
  try_normal, backoff_left, after_backoff, start_clock, with_timeout, reconcile_live,
  provision_timeout,
}

-- The world in which a live machine is driven: the provision clock runs where it has to.
abbrev pub clocked : Env → World → World
clocked env w =
    if is_under_way (state_of w) && not (is_some w.machine.status.provision_started)
    then with_status (λ st. record st { provision_started = some env.now }) w
    else w

-- The machine is in StateError, with the reason and the message, and not ready; nothing is sent and
-- no host is written.
pub record Failed (why what : Text) (v w : World) : Type 0 where
  pub state : state_of w ≡ ProvisioningState.failed
  pub reason : w.machine.status.failure_reason ≡ some why
  pub message : w.machine.status.failure_message ≡ some what
  pub unready : w.machine.status.ready ≡ false
  pub condition : w.machine.status.ready_condition ≡ some (is_false why Severity.error what)
  pub calls : w.calls ≡ v.calls
  pub hosts : w.hosts ≡ v.hosts

-- The reports of errors are cleared; nothing is sent and no host is written.
pub record Cleared (v w : World) : Type 0 where
  pub state : state_of w ≡ state_of v
  pub count : w.machine.status.retry_count ≡ 0
  pub last : w.machine.status.last_retry_timestamp ≡ none
  pub reason : w.machine.status.failure_reason ≡ none
  pub message : w.machine.status.failure_message ≡ none
  pub calls : w.calls ≡ v.calls
  pub hosts : w.hosts ≡ v.hosts

-- The machine is not under way for more than 30 minutes.
abbrev pub InTime : Env → World → Type 0
InTime env w =
    (t : ℕ)
    → is_under_way (state_of w) ≡ true
    → w.machine.status.provision_started ≡ some t
    → env.now ≤ t + 1800000000000

-- No backoff runs.
abbrev pub IsDue : Env → World → Type 0
IsDue env w =
    (t n : ℕ)
    → w.machine.status.retry_count ≡ suc n
    → w.machine.status.last_retry_timestamp ≡ some t
    → t + compute_backoff (suc n) ≤ env.now

-- How a reconcile of a live machine ends.
pub data Ends (env : Env) (machine : Machine) (w : World) : Result Outcome → World → Type 0 where
  -- within the backoff of the last transient error: nothing is done, up to its end
  waits :
      (left t n : ℕ)
      → InTime env w
      → w.machine.status.retry_count ≡ suc n
      → w.machine.status.last_retry_timestamp ≡ some t
      → 0 < left
      → env.now + left ≡ t + compute_backoff (suc n)
      → Ends env machine w (ok (requeue_after left)) (clocked env w)
  -- under way for more than 30 minutes
  times_out :
      {w' : World} (t : ℕ)
      → is_under_way (state_of w) ≡ true
      → w.machine.status.provision_started ≡ some t
      → t + 1800000000000 < env.now
      → Failed (text "ProvisionTimeout") (timeout_message env t (state_of w)) w w'
      → Ends env machine w (ok done) w'
  succeeds :
      {v w' : World} {o : Outcome}
      → InTime env w
      → IsDue env w
      → reconcile_normal env machine (clocked env w) ≡ (ok o, v)
      → Cleared v w'
      → Ends env machine w (ok o) w'
  permanent :
      {v w' : World} (e : Text)
      → InTime env w
      → IsDue env w
      → reconcile_normal env machine (clocked env w) ≡ (err e, v)
      → is_permanent_error e ≡ true
      → Failed (text "PermanentError") e v w'
      → Ends env machine w (ok done) w'
  transient :
      {v : World} (e : Text)
      → InTime env w
      → IsDue env w
      → reconcile_normal env machine (clocked env w) ≡ (err e, v)
      → is_permanent_error e ≡ false
      → Ends env machine w
          (ok (requeue_after (compute_backoff (v.machine.status.retry_count + 1))))
          (with_status
            (λ st. record st {
              retry_count = st.retry_count + 1;
              last_retry_timestamp = some env.now;
            })
            v)

mark_success-Cleared : (w : World) → Cleared w (with_status mark_success w)
unfolding mark_success
mark_success-Cleared w = record {
  state = ground arith;
  count = ground arith;
  last = ground arith;
  reason = ground arith;
  message = ground arith;
  calls = refl;
  hosts = refl;
}

mark_failed-Failed :
    (reason message : Text) (w : World)
    → Failed reason message w (with_status (mark_failed reason message) w)
unfolding mark_failed
mark_failed-Failed reason message w = record {
  state = refl;
  reason = refl;
  message = refl;
  unready = refl;
  condition = refl;
  calls = refl;
  hosts = refl;
}

abbrev Ended : Env → Machine → World → Result Outcome × World → Type 0
Ended env machine w (r, w') = Ends env machine w r w'

classify-Ends :
    (env : Env) (machine : Machine) (w v : World) (r : Result Outcome)
    → InTime env w
    → IsDue env w
    → reconcile_normal env machine (clocked env w) ≡ (r, v)
    → Ended env machine w (classify env r v)
unfolding classify on_error mark_retry
classify-Ends env machine w v (ok o) i d e = succeeds i d e (mark_success-Cleared v)
classify-Ends env machine w v (err m) i d e = elim (Bool-cases (is_permanent_error m)) [
  | inl lasting ↦
      rw lasting (permanent m i d e lasting (mark_failed-Failed (text "PermanentError") m v))
  | inr passing ↦ rw passing (transient m i d e passing)
]

backoff_left-cases :
    (now count left : ℕ) (last : Option ℕ)
    → backoff_left now count last ≡ left
    → 0 < left
    → (t : ℕ) × (n : ℕ) × (count ≡ suc n)
      × (last ≡ some t)
      × (now + left ≡ t + compute_backoff (suc n))
unfolding backoff_left
backoff_left-cases now zero left (some t) e h = absurd (ground arith)
backoff_left-cases now (suc n) left (some t) e h = (t, n, refl, refl, ground arith)
backoff_left-cases now count left none e h = absurd (ground arith)

backoff_left-over :
    (now count : ℕ) (last : Option ℕ) (t n : ℕ)
    → ltb 0 (backoff_left now count last) ≡ false
    → count ≡ suc n
    → last ≡ some t
    → t + compute_backoff (suc n) ≤ now
unfolding backoff_left
backoff_left-over now count last t n over c l = ground arith

-- Behind the timeout, in the clocked world.
after_backoff-Ends :
    (env : Env) (machine : Machine) (w u : World)
    → InTime env w
    → clocked env w ≡ u
    → u.machine.status.retry_count ≡ w.machine.status.retry_count
    → u.machine.status.last_retry_timestamp ≡ w.machine.status.last_retry_timestamp
    → Ended env machine w (after_backoff env machine u)
unfolding after_backoff try_normal
after_backoff-Ends env machine w u in_time clock count last =
    let left =
      backoff_left env.now u.machine.status.retry_count u.machine.status.last_retry_timestamp in
    elim (Bool-cases (ltb 0 left)) [
      | inl waiting ↦
          let (t, n, c, l, e) = backoff_left-cases env.now _ left _ refl (ground arith) in
          rw waiting (
            subst (Ends env machine w (ok (requeue_after left))) clock
              (waits left t n in_time (sym count ∙ c) (sym last ∙ l) (ground arith) e))
      | inr over ↦ rw over (
          classify-Ends env machine w (after (reconcile_normal env machine) u)
            ((reconcile_normal env machine u).0) in_time
            (λ t n c l. backoff_left-over env.now _ _ t n over (count ∙ c) (last ∙ l))
            (ap (reconcile_normal env machine) clock))
    ]

with_timeout-Ends :
    (env : Env) (machine : Machine) (w : World) (started : Option ℕ)
    → is_under_way (state_of w) ≡ true
    → w.machine.status.provision_started ≡ started
    → Ended env machine w (with_timeout env machine started w)
unfolding with_timeout start_clock
with_timeout-Ends env machine w none under_way never =
    after_backoff-Ends env machine w
      (with_status (λ st. record st { provision_started = some env.now }) w) (λ t u at. absurd (cc))
      (ground arith) refl refl
with_timeout-Ends env machine w (some t) under_way at =
    elim (Bool-cases (ltb (t + provision_timeout) env.now)) [
      | inl late ↦ rw late (
          times_out t under_way at (ground arith)
            (mark_failed-Failed (text "ProvisionTimeout") _ w))
      | inr in_time ↦
          rw in_time
            (after_backoff-Ends env machine w w (λ u h g. ground arith) (ground arith) refl refl)
    ]

-- A reconcile of a live machine ends in one of five ways, and never with an error. A machine under
-- way for more than 30 minutes goes to StateError with the reason ProvisionTimeout, and nothing is
-- sent. Otherwise, within the backoff of the last transient error, nothing is done but to start the
-- provision clock where that has to run, and the reconcile is to come back when the backoff is over.
-- Otherwise reconcileNormal is run: where it succeeded, its outcome is kept and the retries and the
-- failure are cleared; behind a permanent error the machine goes to StateError with the reason
-- PermanentError and that error as the message; and behind a transient error the retry is counted
-- and dated, and the reconcile is to come back after the backoff of that count. Where the
-- machine is so brought to StateError, it is not ready, and its condition carries the reason and the
-- message.
pub reconcile_live-Ends :
    (env : Env) (machine : Machine) (w : World)
    → Ends env machine w ((reconcile_live env machine w).0) (after (reconcile_live env machine) w)
unfolding reconcile_live
reconcile_live-Ends env machine w = elim (Bool-cases (is_under_way (state_of w))) [
  | inr settled ↦
      let e : reconcile_live env machine w ≡ after_backoff env machine w = ground arith in
      subst (Ended env machine w) (sym e)
        (after_backoff-Ends env machine w w (λ t u at. absurd (cc)) (ground arith) refl refl)
  | inl under_way ↦
      let e : reconcile_live env machine w
          ≡ with_timeout env machine w.machine.status.provision_started w =
        ground arith in
      subst (Ended env machine w) (sym e)
        (with_timeout-Ends env machine w w.machine.status.provision_started under_way refl)
]

failed-gate :
    (env : Env) (machine : Machine) (hrh : Host) (hrm : RobotMachine)
    → hrm.status.provisioning_state ≡ ProvisioningState.failed
    → gate env machine hrh hrm ≡ ok tt
unfolding gate provisioning_may_become_destructive
failed-gate env machine hrh hrm failed = ground arith

failed-drive :
    (env : Env) (machine : Machine) (hrh : Host) (w : World)
    → state_of w ≡ ProvisioningState.failed
    → build_robot_client env w.cluster ≡ ok tt
    → pass_gate env machine hrh (ok tt) w ≡ (ok done, w)
unfolding pass_gate drive run_state
failed-drive env machine hrh w failed client = ground arith

-- What a machine in StateError comes to in the step of its state.
failed-step :
    (env : Env) (machine : Machine) (w found : World) (hrh : Host)
    → state_of w ≡ ProvisioningState.failed
    → Frame w found
    → resolve_host env.kube w ≡ (ok hrh, found)
    → build_robot_client env found.cluster ≡ ok tt
    → reconcile_normal env machine w ≡ (ok done, addressed hrh found)
unfolding reconcile_normal provision with_host
failed-step env machine w found hrh failed frame there client =
    let failed' : state_of found ≡ ProvisioningState.failed =
      ap (λ (m : RobotMachine). m.status.provisioning_state) (frame.2) ∙ failed in
    let normal : reconcile_normal env machine w ≡ provision env machine w = ground arith in
    let to_gate : provision env machine w
        ≡ pass_gate env machine hrh (gate env machine hrh found.machine) (addressed hrh found) =
      ap
        (λ p.
          proceed (with_host env machine) (map_err (wrapped (text "resolve host") []) (p.0)) (p.1))
        there in
    normal
    ∙ to_gate
    ∙ ap (λ g. pass_gate env machine hrh g (addressed hrh found))
        (failed-gate env machine hrh found.machine failed')
    ∙ failed-drive env machine hrh (addressed hrh found) failed' client

-- A machine in StateError whose host and credentials are still there loses its failure reason and
-- message in the next reconcile where no retry is pending, since the step of that state reports
-- success; it stays in StateError.
pub reconcile_live-forgets :
    (env : Env) (machine : Machine) (w found : World) (hrh : Host)
    → state_of w ≡ ProvisioningState.failed
    → w.machine.status.last_retry_timestamp ≡ none
    → resolve_host env.kube w ≡ (ok hrh, found)
    → build_robot_client env w.cluster ≡ ok tt
    → (state_of (after (reconcile_live env machine) w) ≡ ProvisioningState.failed)
      × ((after (reconcile_live env machine) w).machine.status.failure_reason ≡ none)
      × ((after (reconcile_live env machine) w).machine.status.failure_message ≡ none)
unfolding reconcile_live is_under_way after_backoff backoff_left try_normal classify mark_success
reconcile_live-forgets env machine w found hrh failed idle there client =
    let frame : Frame w found =
      subst (Frame w) (ap (λ p. p.1) there) (resolve_host-Frame env.kube w) in
    let client' : build_robot_client env found.cluster ≡ ok tt =
      ap (build_robot_client env) (frame.1) ∙ client in
    let failed' : state_of found ≡ ProvisioningState.failed =
      ap (λ (m : RobotMachine). m.status.provisioning_state) (frame.2) ∙ failed in
    ground (arith, failed-step env machine w found hrh failed frame there client', failed')
