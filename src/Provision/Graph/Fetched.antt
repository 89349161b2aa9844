-- ===== src/Provision/Graph/Fetched.antt =====
-- The moves of a machine's state in Reconcile, once its objects are there.
use cluster_api_provider_het.Prelude.{ℕ, ◌+◌, ◌<◌, ◌≡◌, some, true, false}
use cluster_api_provider_het.Text.{Text}
use cluster_api_provider_het.Result.{Result, err}
use cluster_api_provider_het.Api.Host.{Host}
use cluster_api_provider_het.Api.Machine.{ProvisioningState}
use cluster_api_provider_het.Api.Capi.{Machine}
use cluster_api_provider_het.World.{World}
use cluster_api_provider_het.Provision.{Env}
use cluster_api_provider_het.Provision.Retry.{is_permanent_error}
use cluster_api_provider_het.Provision.Deletion.{deleting}
use cluster_api_provider_het.Provision.Normal.{reconcile_normal}
use cluster_api_provider_het.Provision.Reconcile.{is_under_way}
use cluster_api_provider_het.Provision.Errors.{clocked}
use cluster_api_provider_het.Provision.Graph.{Step, state_of}

abbrev Stays : World → World → Type 0
Stays w w' = state_of w' ≡ state_of w

-- What Reconcile does to the state of a machine, with an outcome that is no error.
pub data Moves (env : Env) (machine : Machine) (w : World) : World → Type 0 where
  drops :
      {w' : World}
      → w.machine.deleting ≡ true
      → state_of w' ≡ ProvisioningState.deleting
      → Moves env machine w w'
  -- the finalizer is all that is added
  registers :
      w.machine.deleting ≡ false
      → w.machine.has_finalizer ≡ false
      → Moves env machine w (record w { machine = record w.machine { has_finalizer = true } })
  steps :
      {w' : World}
      → w.machine.deleting ≡ false
      → w.machine.has_finalizer ≡ true
      → Step (state_of w) (state_of w')
      → Moves env machine w w'
  is_late :
      {w' : World} (t : ℕ)
      → w.machine.deleting ≡ false
      → is_under_way (state_of w) ≡ true
      → w.machine.status.provision_started ≡ some t
      → t + 1800000000000 < env.now
      → state_of w' ≡ ProvisioningState.failed
      → Moves env machine w w'
  gives_up :
      {w' : World} (e : Text)
      → w.machine.deleting ≡ false
      → (reconcile_normal env machine (clocked env w)).0 ≡ err e
      → is_permanent_error e ≡ true
      → state_of w' ≡ ProvisioningState.failed
      → Moves env machine w w'
