-- ===== src/Provision/Reconcile.antt =====
-- Reconcile of the machine controller: the objects it needs, the finalizer, the provision timeout,
-- the backoff, and what becomes of an error.
use cluster_api_provider_het.Prelude.{
  ℕ, ◌+◌, ◌-◌, Bool, true, false, Option, none, some, [], ◌∷◌, if◌then◌else◌, ltb,
}
use cluster_api_provider_het.Text.{Text, text, concat}
use cluster_api_provider_het.Result.{Result, ok, err}
use cluster_api_provider_het.Exec.{Exec, pure, modify, ◌>>◌}
use cluster_api_provider_het.Api.Machine.{
  RobotMachine, MachineStatus, ProvisioningState, none_yet, activating_rescue, in_rescue,
  installing, booting_talos, applying_config, waiting_for_boot, booting_flatcar, is_false, Severity,
}
use cluster_api_provider_het.Api.Cluster.{RobotCluster}
use cluster_api_provider_het.Api.Capi.{Machine}
use cluster_api_provider_het.World.{World}
use cluster_api_provider_het.Provision.{
  Env, Outcome, done, requeue_after, with_status, requeue_after_short,
}
use cluster_api_provider_het.Provision.Retry.{compute_backoff, is_permanent_error}
use cluster_api_provider_het.Provision.Normal.{reconcile_normal, is_provisioned}
use cluster_api_provider_het.Provision.Delete.{reconcile_delete}

abbrev pub provision_timeout : ℕ
provision_timeout = 1800000000000

pub state_text : ProvisioningState → Text
state_text none_yet = []
state_text activating_rescue = text "ActivatingRescue"
state_text in_rescue = text "InRescue"
state_text installing = text "Installing"
state_text booting_talos = text "BootingTalos"
state_text applying_config = text "ApplyingConfig"
state_text waiting_for_boot = text "WaitingForBoot"
state_text booting_flatcar = text "BootingFlatcar"
state_text ProvisioningState.provisioned = text "Provisioned"
state_text ProvisioningState.deleting = text "Deleting"
state_text ProvisioningState.failed = text "Error"
state_text (ProvisioningState.other s) = s

pub timeout_message : Env → ℕ → ProvisioningState → Text
timeout_message env started state = concat (
    text "Provision did not complete within 30m0s (started "
    ∷ env.format_time started
    ∷ text ", current state: "
    ∷ state_text state
    ∷ text ")"
    ∷ [])

-- A state in which the provision timeout runs.
unfoldable pub is_under_way : ProvisioningState → Bool
is_under_way ProvisioningState.provisioned = false
is_under_way ProvisioningState.failed = false
is_under_way ProvisioningState.deleting = false
is_under_way _ = true

-- The terminal StateError, with its reason and message.
unfoldable pub mark_failed : Text → Text → MachineStatus → MachineStatus
mark_failed reason message st = record st {
  failure_message = some message;
  failure_reason = some reason;
  provisioning_state = ProvisioningState.failed;
  ready = false;
  ready_condition = some (is_false reason Severity.error message);
}

-- A transient error: one more retry.
unfoldable pub mark_retry : ℕ → MachineStatus → MachineStatus
mark_retry now st = record st { retry_count = st.retry_count + 1; last_retry_timestamp = some now }

-- "Success: reset retry counter"
unfoldable pub mark_success : MachineStatus → MachineStatus
mark_success st =
    let st' = record st {
      retry_count = 0;
      failure_message = none;
      failure_reason = none;
      last_retry_timestamp = none;
    } in
    if is_provisioned st.provisioning_state then st' else record st' {
      ready_condition =
          some (is_false (text "Provisioning") Severity.info (text "Machine is being provisioned"));
    }

unfoldable pub on_error : Env → Text → Exec World Outcome
unfolding mark_failed mark_retry
on_error env e =
    if is_permanent_error e
    then (do modify (with_status (mark_failed (text "PermanentError") e)); pure done)
    else do
      modify (with_status (mark_retry env.now))
      λ w. (ok (requeue_after (compute_backoff w.machine.status.retry_count)), w)

unfoldable pub classify : Env → Result Outcome → Exec World Outcome
unfolding on_error mark_success
classify env (ok outcome) = do modify (with_status mark_success); pure outcome
classify env (err e) = on_error env e

unfoldable pub try_normal : Env → Machine → Exec World Outcome
unfolding classify
try_normal env machine w = let (r, w') = reconcile_normal env machine w in classify env r w'

-- How long the backoff of the last retry still runs.
unfoldable pub backoff_left : ℕ → ℕ → Option ℕ → ℕ
backoff_left now count none = 0
backoff_left now count (some t) = if ltb 0 count then t + compute_backoff count - now else 0

unfoldable pub after_backoff : Env → Machine → Exec World Outcome
unfolding try_normal backoff_left
after_backoff env machine w =
    let st = w.machine.status in
    let left = backoff_left env.now st.retry_count st.last_retry_timestamp in
    (if ltb 0 left then pure (requeue_after left) else try_normal env machine) w

unfoldable pub start_clock : ℕ → MachineStatus → MachineStatus
start_clock now st = record st { provision_started = some now }

-- The provision timeout, in a state where it runs.
unfoldable pub with_timeout : Env → Machine → Option ℕ → Exec World Outcome
unfolding after_backoff mark_failed start_clock
with_timeout env machine none w =
    (do modify (with_status (start_clock env.now)); after_backoff env machine) w
with_timeout env machine (some t) w =
    (if ltb (t + provision_timeout) env.now
        then (do
          modify (
              with_status (
                mark_failed (text "ProvisionTimeout")
                  (timeout_message env t w.machine.status.provisioning_state)))
          pure done)
        else after_backoff env machine)
      w

-- A machine that is not deleted and has its finalizer.
unfoldable pub reconcile_live : Env → Machine → Exec World Outcome
unfolding with_timeout is_under_way
reconcile_live env machine w =
    (if is_under_way w.machine.status.provisioning_state
        then with_timeout env machine w.machine.status.provision_started
        else after_backoff env machine)
      w

-- Reconcile on the objects that it has fetched.
unfoldable pub reconcile_fetched : Env → Machine → Exec World Outcome
unfolding reconcile_live
reconcile_fetched env machine w =
    (if w.machine.deleting
        then reconcile_delete env machine
        else if w.machine.has_finalizer
        then reconcile_live env machine
        else do
          modify (λ v. record v { machine = record v.machine { has_finalizer = true } })
          pure done)
      w

-- The CAPI Cluster, as far as Reconcile reads it.
pub record CapiCluster : Type 0 where
  pub paused : Bool
  pub infrastructure_ref : Option (Text × Text)

-- What the API server answers to the requests at the start of Reconcile. An object that is not
-- found is `none`.
pub record Fetched : Type 0 where
  pub robot_machine : Result (Option RobotMachine)
  pub owner_machine : Result (Option Machine)
  pub cluster : Result (Option CapiCluster)
  pub robot_cluster : Text → Text → Result RobotCluster
  pub helper_error : Option Text
  -- the answer to the patch of the machine
  pub patch_error : RobotMachine → Option Text

-- The deferred patch, whose error is logged only.
unfoldable pub patch_machine : Fetched → World → World
patch_machine fetched w = elim (fetched.patch_error w.machine) [
  | some e ↦ w
  | none ↦ record w { stored_machine = w.machine }
]

unfoldable pub with_cluster : Env → Fetched → Machine → RobotCluster → Exec World Outcome
unfolding reconcile_fetched patch_machine
with_cluster env fetched machine hrc w = elim fetched.helper_error [
  | some e ↦ (err (concat (text "failed to init patch helper: " ∷ e ∷ [])), w)
  | none ↦
      let (r, w') = reconcile_fetched env machine (record w { cluster = hrc }) in
      (r, patch_machine fetched w')
]

unfoldable pub with_capi_cluster : Env → Fetched → Machine → CapiCluster → Exec World Outcome
unfolding with_cluster
with_capi_cluster env fetched machine cluster w =
    if cluster.paused then (ok done, w) else elim (cluster.infrastructure_ref) [
      | none ↦ (ok (requeue_after requeue_after_short), w)
      | some (namespace, name) ↦ elim (fetched.robot_cluster namespace name) [
        | err e ↦ (ok (requeue_after requeue_after_short), w)
        | ok hrc ↦ with_cluster env fetched machine hrc w
      ]
    ]

unfoldable pub with_machine : Env → Fetched → Machine → Exec World Outcome
unfolding with_capi_cluster
with_machine env fetched machine w = elim (fetched.cluster) [
  | err e ↦ (err e, w)
  | ok none ↦ (ok (requeue_after requeue_after_short), w)
  | ok (some cluster) ↦ with_capi_cluster env fetched machine cluster w
]

-- Reconcile, the deferred patch included.
unfoldable pub reconcile : Env → Fetched → Exec World Outcome
unfolding with_machine
reconcile env fetched w = elim (fetched.robot_machine) [
  | err e ↦ (err e, w)
  | ok none ↦ (ok done, w)
  | ok (some hrm) ↦ elim (fetched.owner_machine) [
    | err e ↦ (err e, w)
    | ok none ↦ (ok (requeue_after requeue_after_short), w)
    | ok (some machine) ↦
        with_machine env fetched machine (record w { machine = hrm; stored_machine = hrm })
  ]
]
