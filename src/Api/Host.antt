-- ===== src/Api/Host.antt =====
-- api/v1alpha1/hetznerrobothost_types.go
use cluster_api_provider_het.Prelude.{ℕ, Bool, Option, List}
use cluster_api_provider_het.Text.{Text}

-- HostState; any other string is `other`
pub data HostState : Type 0 where
  unset available claimed provisioned : HostState
  other : Text → HostState

pub data LifecycleClass : Type 0 where
  unset compute control_plane storage : LifecycleClass
  other : Text → LifecycleClass

pub data DestructivePolicy : Type 0 where
  unset always_clean_slate never_destructive requires_external_release : DestructivePolicy
  other : Text → DestructivePolicy

pub record MachineReference : Type 0 where
  pub name : Text
  pub namespace : Text

pub record HardwareDetails : Type 0 where
  pub primary_mac : Text
  pub gateway_ip : Text
  pub nvme_disks : List Text
  pub ceph_disks : List Text
  pub by_id_paths : List (Text × Text)

-- The server id is at least 1 by the validation rule of the type, so it is a natural number.
pub record HostSpec : Type 0 where
  pub server_id : ℕ
  pub server_ip : Text
  pub server_ipv6_net : Text
  pub internal_ip : Text
  pub install_disk : Text
  pub lifecycle_class : LifecycleClass
  pub maintenance_mode : Bool
  pub policy : DestructivePolicy

pub record HostStatus : Type 0 where
  pub state : HostState
  pub consumer_ref : Option MachineReference
  pub machine_ref : Option MachineReference
  pub hardware_details : Option HardwareDetails
  pub last_consumer_ref : Option MachineReference
  pub dirty_reason : Text
  pub error_message : Text

pub record Host : Type 0 where
  pub name : Text
  pub namespace : Text
  pub cluster_name : Text
  pub has_finalizer : Bool
  pub deleting : Bool
  pub spec : HostSpec
  pub status : HostStatus
