-- ===== src/Provision/Graph.antt =====
-- The provisioning states as a state machine.
pub mod Install
pub mod Rescue
pub mod Boot
pub mod Moves
pub mod Fetched
use cluster_api_provider_het.Prelude.{◌≡◌, true}
use cluster_api_provider_het.Api.Machine.{
  ProvisioningState, none_yet, activating_rescue, in_rescue, installing, booting_talos,
  applying_config, waiting_for_boot, booting_flatcar,
}
use cluster_api_provider_het.Policy.{provisioning_may_become_destructive}
use cluster_api_provider_het.World.{World}

-- The transitions of reconcileNormal, which leaves the moves to StateError and StateDeleting to
-- Reconcile.
pub data Step : ProvisioningState → ProvisioningState → Type 0 where
  stay : {s : ProvisioningState} → Step s s
  -- back into the rescue system, from any state before the installed system answers
  arm :
      {s : ProvisioningState}
      → provisioning_may_become_destructive s ≡ true
      → Step s activating_rescue
  rescued : Step activating_rescue in_rescue
  lost : Step in_rescue none_yet
  installed : Step in_rescue installing
  booted : Step installing booting_talos
  booted_flatcar : Step installing booting_flatcar
  maintenance : Step booting_talos applying_config
  configured : Step applying_config waiting_for_boot
  running : Step waiting_for_boot ProvisioningState.provisioned
  joined : Step booting_flatcar ProvisioningState.provisioned

abbrev pub state_of : World → ProvisioningState
state_of w = w.machine.status.provisioning_state
