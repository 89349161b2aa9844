-- ===== src/Api/Machine.antt =====
-- api/v1alpha1/hetznerrobotmachine_types.go
use cluster_api_provider_het.Prelude.{ℕ, Bool, Option, List}
use cluster_api_provider_het.Text.{Text}

pub data ProvisioningState : Type 0 where
  none_yet activating_rescue in_rescue installing booting_talos : ProvisioningState
  applying_config waiting_for_boot booting_flatcar provisioned : ProvisioningState
  deleting failed : ProvisioningState
  other : Text → ProvisioningState

pub data Severity : Type 0 where
  error warning info : Severity

-- The Ready condition, as the `conditions` package of Cluster API sets it.
pub data ReadyCondition : Type 0 where
  is_true : ReadyCondition
  is_false : (reason : Text) → Severity → (message : Text) → ReadyCondition

pub data Address : Type 0 where
  external_ip internal_ip : Text → Address

-- A label selector stands as its serialised text; the apimachinery package reads it.
pub record MachineSpec : Type 0 where
  pub provider_id : Option Text
  pub host_ref : Option Text
  pub host_selector : Option Text
  pub os_type : Text
  pub talos_schematic : Text
  pub talos_version : Text
  pub flatcar_channel : Text
  pub install_disk : Text
  pub custom_image_url : Text

pub record MachineStatus : Type 0 where
  pub ready : Bool
  pub initialization : Option Bool
  pub addresses : List Address
  pub provisioning_state : ProvisioningState
  pub host_ref : Text
  pub primary_mac : Text
  pub gateway_ip : Text
  pub resolved_install_disk : Text
  pub failure_reason : Option Text
  pub failure_message : Option Text
  pub provision_started : Option ℕ
  pub retry_count : ℕ
  pub last_retry_timestamp : Option ℕ
  pub last_reset_time : Option ℕ
  pub ready_condition : Option ReadyCondition

-- HetznerRobotMachine
pub record RobotMachine : Type 0 where
  pub name : Text
  pub namespace : Text
  pub cluster_name : Text
  pub has_finalizer : Bool
  pub deleting : Bool
  pub spec : MachineSpec
  pub status : MachineStatus
