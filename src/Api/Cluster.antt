-- ===== src/Api/Cluster.antt =====
-- api/v1alpha1/hetznerrobotcluster_types.go
use cluster_api_provider_het.Prelude.{ℕ, Bool, Option}
use cluster_api_provider_het.Text.{Text}
use cluster_api_provider_het.Api.Machine.{ReadyCondition}

pub record VlanConfig : Type 0 where
  pub id : ℕ
  pub prefix_length : ℕ

pub record Endpoint : Type 0 where
  pub host : Text
  pub port : ℕ

pub record SecretRef : Type 0 where
  pub name : Text
  pub namespace : Text

pub record RobotCluster : Type 0 where
  pub name : Text
  pub namespace : Text
  pub has_finalizer : Bool
  pub deleting : Bool
  pub control_plane_endpoint : Endpoint
  pub robot_secret_ref : SecretRef
  pub ssh_secret_ref : SecretRef
  pub talos_factory_base_url : Text
  pub vlan_config : Option VlanConfig
  pub ready : Bool
  pub initialization : Option Bool
  pub ready_condition : Option ReadyCondition
