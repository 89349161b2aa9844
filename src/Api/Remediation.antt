-- ===== src/Api/Remediation.antt =====
-- api/v1alpha1/hetznerrobotremediation_types.go
use cluster_api_provider_het.Prelude.{ℕ, Option}
use cluster_api_provider_het.Text.{Text}

pub data Phase : Type 0 where
  initial running waiting deleting : Phase
  other : Text → Phase

-- The strategy's retry limit is at least 1 by the validation rule of the type.
pub record Remediation : Type 0 where
  pub retry_limit : ℕ
  pub timeout : ℕ
  pub phase : Phase
  pub retry_count : ℕ
  pub last_remediated : Option ℕ
