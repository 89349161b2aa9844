-- ===== src/Witness/Ownership.antt =====
-- Claims of concrete hosts.
use cluster_api_provider_het.Prelude.{◌≡◌, refl, true, some, [], ◌∷◌, arith}
use cluster_api_provider_het.Text.{text, text_eq}
use cluster_api_provider_het.Result.{ok}
use cluster_api_provider_het.World.{World, find_host, put_host, get_host, patch_host}
use cluster_api_provider_het.Ownership.{
  blocking_host_owner_ref, blocking_legacy_ref, current_host_consumer_ref, host_is_claimed_by,
  robot_server_id_from_provider_id,
}
use cluster_api_provider_het.Ownership.Claim.{
  set_host_ref, with_host_ref, claimed_host, claim_candidate, resolve_by_name, resolve_by_spec,
  resolve_host,
}
use cluster_api_provider_het.Ownership.Claimed.{Resolves, resolve_host-Resolves}
use cluster_api_provider_het.Ownership.ProviderId.{provider_id, robot_server_id-provider_id}
use cluster_api_provider_het.Api.Machine.{RobotMachine, provisioned}
use cluster_api_provider_het.Ownership.Adoption.{
  adoption_host_by_spec, resolve_provisioned_adoption_host, adoption_guard, adopt_host,
  adopted_host, backfill_provisioned_host_claim,
}
use cluster_api_provider_het.Ownership.Adopted.{Adopts, backfill-Adopts}
use cluster_api_provider_het.Witness.{compute_host, new_status, new_machine, kube, new_world}

abbrev claimed_world : World
claimed_world = record new_world {
  hosts = claimed_host new_machine compute_host ∷ [];
  machine = with_host_ref (text "h1") new_machine;
}

claims : resolve_host kube new_world ≡ (ok (claimed_host new_machine compute_host), claimed_world)
unfolding resolve_host resolve_by_spec resolve_by_name claim_candidate get_host patch_host find_host
    put_host host_is_claimed_by text text_eq
claims = refl

resolve_host-Resolves_example :
    Resolves new_world (claimed_host new_machine compute_host) claimed_world
resolve_host-Resolves_example =
    resolve_host-Resolves kube new_world claimed_world (claimed_host new_machine compute_host)
      (unfold find_host in (refl, tt)) claims

robot_server_id-provider_id_example :
    robot_server_id_from_provider_id (some (provider_id 4711)) ≡ some 4711
robot_server_id-provider_id_example = robot_server_id-provider_id 4711 (omega arith) (omega arith)

-- The provisioned machine of the host, whose references were lost.
abbrev lost_machine : RobotMachine
lost_machine = record new_machine {
  spec = record new_machine.spec { provider_id = some (provider_id 42) };
  status = record new_status { provisioning_state = provisioned };
}

abbrev lost_world : World
lost_world = record new_world { machine = lost_machine }

abbrev adopted_world : World
adopted_world = record lost_world {
  hosts = adopted_host lost_machine compute_host ∷ [];
  machine = with_host_ref (text "h1") lost_machine;
}

adopts : backfill_provisioned_host_claim kube lost_world ≡ (ok true, adopted_world)
unfolding backfill_provisioned_host_claim adopt_host resolve_provisioned_adoption_host
    adoption_guard adoption_host_by_spec get_host patch_host set_host_ref find_host put_host
    blocking_host_owner_ref blocking_legacy_ref current_host_consumer_ref text text_eq
adopts = rw (robot_server_id-provider_id 42 (omega arith) (omega arith)) refl

backfill-Adopts_example : Adopts kube lost_world adopted_world
backfill-Adopts_example =
    backfill-Adopts kube lost_world adopted_world (unfold find_host in (refl, tt)) adopts
