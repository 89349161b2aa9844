-- ===== src/Provision.antt =====
-- The machine controller, controllers/hetznerrobotmachine_*.go: what a reconcile asks the outside,
-- the objects that its steps change, and the helpers that its states share.
pub mod Watch
pub mod Retry
pub mod Secrets
pub mod Rescue
pub mod Install
pub mod Boot
pub mod Config
pub mod Normal
pub mod Delete
pub mod Reconcile
pub mod Backoff
pub mod Permanent
pub mod Cooldown
pub mod Keeps
pub mod Driven
pub mod Gate
pub mod Sends
pub mod Rescued
pub mod Resets
pub mod Graph
pub mod Deletion
pub mod Errors
pub mod Final
use cluster_api_provider_het.Prelude.{
  ℕ, Bool, true, false, Option, none, some, List, [], ◌∷◌, if◌then◌else◌,
}
use cluster_api_provider_het.Text.{Text, text, text_eq, concat}
use cluster_api_provider_het.Result.{Result, Done, ok, err}
use cluster_api_provider_het.Exec.{Exec, modify}
use cluster_api_provider_het.Api.Host.{Host}
use cluster_api_provider_het.Api.Machine.{
  RobotMachine, MachineStatus, ProvisioningState, ReadyCondition, Severity,
}
use cluster_api_provider_het.Api.Cluster.{RobotCluster, VlanConfig}
use cluster_api_provider_het.Api.Capi.{Machine}
use cluster_api_provider_het.World.{World, Call, Kube}
use cluster_api_provider_het.Config.{Codec}
use cluster_api_provider_het.Ignition.{Json}
use cluster_api_provider_het.SshRescue.Client.{Network}
use cluster_api_provider_het.Robot.{Http}
use cluster_api_provider_het.Talos.{Grpc}

-- What the outside answers in one reconcile; a question asked twice has one answer.
pub record Env : Type 0 where
  pub now : ℕ
  -- time.Time.Format(time.RFC3339)
  pub format_time : ℕ → Text
  pub kube : Kube
  -- r.Get of a Secret: its Data
  pub get_secret : (namespace : Text) → (name : Text) → Result (List (Text × Text))
  pub cluster_helper_error : Option Text
  pub patch_cluster_error : RobotCluster → Option Text
  pub network : Network
  pub http : Http
  pub grpc : Grpc
  pub codec : Codec
  pub base64 : Text → Text
  pub json : Json

-- ctrl.Result
pub data Outcome : Type 0 where
  done requeue : Outcome
  requeue_after : ℕ → Outcome

abbrev pub second : ℕ
second = 1000000000

abbrev pub requeue_after_short : ℕ
requeue_after_short = 15000000000

abbrev pub requeue_after_medium : ℕ
requeue_after_medium = 20000000000

abbrev pub requeue_after_long : ℕ
requeue_after_long = 60000000000

abbrev pub with_status : (MachineStatus → MachineStatus) → World → World
with_status f w = let hrm = w.machine in record w { machine = record hrm { status = f hrm.status } }

unfoldable pub set_state : ProvisioningState → Exec World (Unit {0})
set_state state = modify (with_status λ st. record st { provisioning_state = state })

-- A call that leaves the controller.
unfoldable pub send_call : Call → Exec World (Unit {0})
send_call c = modify (λ w. record w { calls = c ∷ w.calls })

-- ProvisioningState = StateProvisioned and the fields that are set beside it.
unfoldable pub mark_provisioned : MachineStatus → MachineStatus
mark_provisioned st = record st {
  provisioning_state = ProvisioningState.provisioned;
  ready = true;
  initialization = some true;
  ready_condition = some ReadyCondition.is_true;
}

-- `fmt.Errorf("<what><name>: %w", err)`
pub wrapped : Text → Text → Text → Text
wrapped what name e = concat (what ∷ name ∷ text ": " ∷ e ∷ [])

-- hrm.Spec.OSType == infrav1.OSTypeFlatcar
unfoldable pub is_flatcar : RobotMachine → Bool
is_flatcar hrm = text_eq hrm.spec.os_type (text "flatcar")
