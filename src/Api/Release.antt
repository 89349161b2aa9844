-- ===== src/Api/Release.antt =====
-- api/v1alpha1/hetznerrobothostrelease_types.go
use cluster_api_provider_het.Prelude.{ℕ}
use cluster_api_provider_het.Text.{Text}

pub data ReleaseAction : Type 0 where
  wipe_and_reinstall : ReleaseAction
  other : Text → ReleaseAction

pub record ReleasedMachine : Type 0 where
  pub name : Text
  pub namespace : Text
  pub uid : Text

pub record HostRelease : Type 0 where
  pub namespace : Text
  pub host_ref : Text
  pub machine_ref : ReleasedMachine
  pub approved_action : ReleaseAction
  pub expires_at : ℕ
