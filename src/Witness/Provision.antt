-- ===== src/Witness/Provision.antt =====
-- Reconciles of a concrete machine.
use cluster_api_provider_het.Prelude.{◌≡◌, ◌⊎◌, refl, none, some, [], ◌∷◌, ◌++◌, arith, true, false}
use cluster_api_provider_het.Text.{Text, text, text_eq, contains, has_prefix, to_lower}
use cluster_api_provider_het.Result.{ok}
use cluster_api_provider_het.Exec.Within.{after}
use cluster_api_provider_het.Api.Host.{Host}
use cluster_api_provider_het.Api.Machine.{RobotMachine, ProvisioningState, in_rescue}
use cluster_api_provider_het.Policy.{
  authorize_destructive_provisioning_for, provisioning_may_become_destructive,
}
use cluster_api_provider_het.World.{
  World, reset_server, activate_rescue, find_host, put_host, get_host, patch_host,
}
use cluster_api_provider_het.World.Calls.{Adds, keeps_disks, is_apply, is_no_reset}
use cluster_api_provider_het.Ownership.{host_is_claimed_by}
use cluster_api_provider_het.Ownership.Release.{resolve_host_for_delete}
use cluster_api_provider_het.Ownership.Kept.{resolve_host_for_delete-releases}
use cluster_api_provider_het.Ownership.Claim.{
  claimed_host, with_host_ref, claim_candidate, resolve_by_name, resolve_by_spec, resolve_host,
}
use cluster_api_provider_het.Provision.{done, requeue_after, requeue_after_short}
use cluster_api_provider_het.Provision.Secrets.{build_robot_client}
use cluster_api_provider_het.Provision.Retry.{
  compute_backoff, is_permanent_text, is_permanent_error,
}
use cluster_api_provider_het.Provision.Backoff.{compute_backoff-exact}
use cluster_api_provider_het.Provision.Permanent.{is_permanent_error-wrapped}
use cluster_api_provider_het.Provision.Normal.{reconcile_normal}
use cluster_api_provider_het.Provision.Delete.{drain_done, reconcile_delete}
use cluster_api_provider_het.Provision.Gate.{reconcile_normal-gated}
use cluster_api_provider_het.Provision.Rescued.{Writes, reconcile_normal-Writes}
use cluster_api_provider_het.Provision.Resets.{reconcile_normal-cooldown}
use cluster_api_provider_het.Provision.Graph.{state_of}
use cluster_api_provider_het.Provision.Final.{now, reconciles, Later-failed}
use cluster_api_provider_het.Provision.Deletion.{
  deleting, reconcile_delete-gated, reconcile_delete-ends,
}
use cluster_api_provider_het.Provision.Reconcile.{reconcile_live, reconcile_fetched}
use cluster_api_provider_het.Provision.Errors.{Ends, reconcile_live-Ends, reconcile_live-forgets}
use cluster_api_provider_het.Witness.{
  compute_host, capi_machine, new_machine, new_status, new_world, kube, env, in_state,
}

compute_backoff-exact_example : compute_backoff 4 ≡ 240000000000
compute_backoff-exact_example = compute_backoff-exact 3

is_permanent_error-wrapped_example :
    is_permanent_error (text "ab" ++ (text "invalid" ++ text "c")) ≡ true
is_permanent_error-wrapped_example =
    is_permanent_error-wrapped (text "ab") (text "invalid") (text "c")
      (unfold is_permanent_error is_permanent_text text contains has_prefix to_lower in refl)

-- The machine whose disk is about to be wiped.
abbrev rescue_world : World
rescue_world = record new_world { machine = in_state in_rescue }

reconcile_normal-gated_example :
    Adds is_apply rescue_world.calls (after (reconcile_normal env capi_machine) rescue_world).calls
    ⊎ ((hrh : Host) × (found : World) × (resolve_host kube rescue_world ≡ (ok hrh, found))
        × (authorize_destructive_provisioning_for 500 kube.releases
              (some rescue_world.machine)
              (some capi_machine)
              (some hrh)
            ≡ ok tt))
reconcile_normal-gated_example = reconcile_normal-gated env capi_machine rescue_world

reconcile_normal-Writes_example :
    Adds keeps_disks rescue_world.calls
      (after (reconcile_normal env capi_machine) rescue_world).calls
    ⊎ ((hrh : Host) × (found : World) × (resolve_host kube rescue_world ≡ (ok hrh, found))
        × Writes env rescue_world hrh.spec.server_ip
            (after (reconcile_normal env capi_machine) rescue_world))
reconcile_normal-Writes_example = reconcile_normal-Writes env capi_machine rescue_world

-- A machine that was reset at the nanosecond 400.
abbrev reset_world : World
reset_world = record new_world {
  machine = record new_machine { status = record new_status { last_reset_time = some 400 } };
}

reconcile_normal-cooldown_example :
    Adds is_no_reset reset_world.calls (after (reconcile_normal env capi_machine) reset_world).calls
reconcile_normal-cooldown_example =
    reconcile_normal-cooldown env capi_machine reset_world 400 refl (omega arith)

abbrev claimed_world : World
claimed_world = record new_world {
  hosts = claimed_host new_machine compute_host ∷ [];
  machine = with_host_ref (text "h1") new_machine;
}

resolve_host_for_delete-releases_example :
    (claimed_world ≡ claimed_world)
    × (true ≡ true)
    × ((host_is_claimed_by (claimed_host new_machine compute_host) claimed_world.machine ≡ true)
        ⊎ ((false ≡ false)
            × (find_host (text "ns") (text "h1") claimed_world.hosts
                ≡ some (claimed_host new_machine compute_host))))
unfolding text claimed_host
resolve_host_for_delete-releases_example =
    resolve_host_for_delete-releases kube claimed_world.machine claimed_world claimed_world
      (claimed_host new_machine compute_host) true
      (unfold resolve_host_for_delete get_host find_host text_eq text in refl)

reconcile_delete-gated_example :
    ((after (reconcile_delete env capi_machine) claimed_world).calls ≡ claimed_world.calls)
    ⊎ ((hrh : Host) × (resolve_host_for_delete kube claimed_world.machine (deleting claimed_world)
          ≡ (ok (some hrh, true), deleting claimed_world))
        × (authorize_destructive_provisioning_for 500 kube.releases
              (some (deleting claimed_world).machine)
              (some capi_machine)
              (some hrh)
            ≡ ok tt)
        × (fingerprint : Text) × ((after (reconcile_delete env capi_machine) claimed_world).calls
            ≡ reset_server hrh.spec.server_id
              ∷ activate_rescue hrh.spec.server_id fingerprint
              ∷ claimed_world.calls))
reconcile_delete-gated_example = reconcile_delete-gated env capi_machine claimed_world

reconcile_delete-ends_example :
    ((drain_done capi_machine ≡ true)
      × ((reconcile_delete env capi_machine claimed_world).0 ≡ ok done)
      × ((after (reconcile_delete env capi_machine) claimed_world).machine.has_finalizer ≡ false))
    ⊎ ((drain_done capi_machine ≡ false)
        × (reconcile_delete env capi_machine claimed_world
            ≡ (ok (requeue_after requeue_after_short), deleting claimed_world)))
reconcile_delete-ends_example = reconcile_delete-ends env capi_machine claimed_world

-- A machine that was started at 100 and failed for the first time at 300.
abbrev retrying_world : World
retrying_world = record new_world {
  machine = record new_machine {
    status = record new_status {
      provision_started = some 100;
      retry_count = 1;
      last_retry_timestamp = some 300;
    };
  };
}

reconcile_live-Ends_example :
    Ends env capi_machine retrying_world
      ((reconcile_live env capi_machine retrying_world).0)
      (after (reconcile_live env capi_machine) retrying_world)
reconcile_live-Ends_example = reconcile_live-Ends env capi_machine retrying_world

abbrev failed_machine : RobotMachine
failed_machine = record new_machine {
  status = record new_status {
    provisioning_state = ProvisioningState.failed;
    failure_reason = some (text "ProvisionTimeout");
  };
}

abbrev failed_world : World
failed_world = record new_world { machine = failed_machine }

-- Two reconciles of a failed machine.
abbrev failed_later : World
failed_later =
    after (reconcile_fetched env capi_machine)
      (after (reconcile_fetched env capi_machine) failed_world)

Later-failed_example :
    (state_of failed_later ≡ ProvisioningState.failed) × (failed_later.calls ≡ failed_world.calls)
Later-failed_example = Later-failed failed_world failed_later refl (
    reconciles env capi_machine (reconciles env capi_machine now refl) (
      unfold reconcile_fetched reconcile_normal resolve_host resolve_by_spec text resolve_by_name
        get_host find_host text_eq host_is_claimed_by claim_candidate patch_host
        provisioning_may_become_destructive build_robot_client in
      refl))

reconcile_live-forgets_example :
    (state_of (after (reconcile_live env capi_machine) failed_world) ≡ ProvisioningState.failed)
    × ((after (reconcile_live env capi_machine) failed_world).machine.status.failure_reason ≡ none)
    × ((after (reconcile_live env capi_machine) failed_world).machine.status.failure_message ≡ none)
reconcile_live-forgets_example =
    reconcile_live-forgets env capi_machine failed_world
      (record failed_world {
        hosts = claimed_host failed_machine compute_host ∷ [];
        machine = with_host_ref (text "h1") failed_machine;
      })
      (claimed_host failed_machine compute_host) refl refl
      (unfold resolve_host resolve_by_spec resolve_by_name claim_candidate get_host patch_host
          find_host put_host host_is_claimed_by text text_eq in
        refl)
      (unfold build_robot_client in refl)
