-- ===== src/Api/Capi.antt =====
-- The Cluster API objects, as far as the controllers read them: a Machine's identity, its node
-- reference, references and conditions, and whether util.IsControlPlaneMachine holds of it.
use cluster_api_provider_het.Prelude.{Bool, Option, List}
use cluster_api_provider_het.Text.{Text}

pub record Condition : Type 0 where
  pub kind : Text
  pub status : Text
  pub reason : Text

pub record Machine : Type 0 where
  pub name : Text
  pub namespace : Text
  pub uid : Text
  pub is_control_plane : Bool
  pub infrastructure_name : Text
  pub data_secret_name : Option Text
  pub node_ref : Option Text
  pub conditions : List Condition
