-- ===== src/Witness/Reconcilers.antt =====
-- Reconciles of concrete remediations, hosts and clusters.
use cluster_api_provider_het.Prelude.{ℕ, ◌≡◌, ◌⊎◌, refl, true, false, none, some, [], ◌∷◌, arith}
use cluster_api_provider_het.Text.{text, is_empty}
use cluster_api_provider_het.Result.{ok}
use cluster_api_provider_het.Exec.Within.{after}
use cluster_api_provider_het.Api.Host.{Host}
use cluster_api_provider_het.Api.Machine.{RobotMachine}
use cluster_api_provider_het.Api.Cluster.{RobotCluster}
use cluster_api_provider_het.Api.Remediation.{Remediation, Phase}
use cluster_api_provider_het.Policy.{authorize_automated_hardware_reset}
use cluster_api_provider_het.Policy.Exact.{authorize_reset-iff-compute}
use cluster_api_provider_het.World.{reset_server}
use cluster_api_provider_het.Robot.{robot_reset_server, send}
use cluster_api_provider_het.Provision.Secrets.{build_robot_client}
use cluster_api_provider_het.Remediation.{
  Treatment, Answers, Got, OwnerCluster, got, host_of, robot_cluster_of, resolve_server_and_cluster,
  reconcile_remediation,
}
use cluster_api_provider_het.Remediation.Allowed.{
  reconcile_remediation-allowed, reconcile_remediation-untimed,
}
use cluster_api_provider_het.Remediation.Ends.{rounds, resets, rounds-ends}
use cluster_api_provider_het.HostController.{Clusters, reconcile_host}
use cluster_api_provider_het.HostController.Claimed.{
  reconcile_host-lets_go, reconcile_host-keeps_addresses,
}
use cluster_api_provider_het.ClusterController.{reconcile_gone}
use cluster_api_provider_het.ClusterController.Released.{Ends, reconcile_gone-Ends}
use cluster_api_provider_het.Witness.{
  compute_host, new_machine, new_status, capi_machine, robot_cluster, env,
}

-- A machine that has its host.
abbrev hosted : RobotMachine
hosted = record new_machine { status = record new_status { host_ref = text "h1" } }

abbrev owner : OwnerCluster
owner = record {
  name = text "c1";
  namespace = text "ns";
  infrastructure_ref = some (text "ns", text "c1");
}

abbrev answers : Answers
answers = record {
  robot_machine = λ ns n. Got.found hosted;
  host = λ ns n. Got.found compute_host;
  cluster = ok (some owner);
  robot_cluster = λ ns n. Got.found robot_cluster;
}

abbrev remediation_in : Phase → ℕ → Remediation
remediation_in phase count = record {
  retry_limit = 2;
  timeout = 0;
  phase = phase;
  retry_count = count;
  last_remediated = none;
}

-- A remediation in memory before any call.
abbrev treatment : Remediation → Treatment
treatment r = record { remediation = r; calls = [] }

resolves : resolve_server_and_cluster answers capi_machine ≡ ok (compute_host, robot_cluster)
unfolding resolve_server_and_cluster got host_of robot_cluster_of text
resolves = refl

allows : authorize_automated_hardware_reset (some compute_host) ≡ ok tt
allows = (authorize_reset-iff-compute compute_host).1 (refl, refl, refl)

builds : build_robot_client env robot_cluster ≡ ok tt
unfolding build_robot_client text
builds = refl

accepts : robot_reset_server env.http 42 ≡ ok tt
unfolding robot_reset_server send text
accepts = refl

abbrev new_remediation : Remediation
new_remediation = remediation_in Phase.initial 0

abbrev twice_reconciled : Remediation
twice_reconciled =
    (after (reconcile_remediation env answers capi_machine) (
      treatment
        (after (reconcile_remediation env answers capi_machine)
          (treatment new_remediation)).remediation)).remediation

reconcile_remediation-allowed_example :
    ((after (reconcile_remediation env answers capi_machine) (treatment new_remediation)).calls
      ≡ [])
    ⊎ ((host : Host) × (hrc : RobotCluster) × (resolve_server_and_cluster answers capi_machine
          ≡ ok (host, hrc))
        × (authorize_automated_hardware_reset (some host) ≡ ok tt)
        × ((after
              (reconcile_remediation env answers capi_machine)
              (treatment new_remediation)).calls
            ≡ reset_server host.spec.server_id ∷ []))
reconcile_remediation-allowed_example =
    reconcile_remediation-allowed env answers capi_machine (treatment new_remediation)

reconcile_remediation-untimed_example :
    (after (reconcile_remediation env answers capi_machine) (
      after
        (reconcile_remediation env answers capi_machine)
        (treatment (remediation_in Phase.running 1)))).calls
    ≡ reset_server 42 ∷ []
reconcile_remediation-untimed_example =
    reconcile_remediation-untimed env answers capi_machine
      (treatment (remediation_in Phase.running 1)) compute_host robot_cluster refl (omega arith)
      resolves allows builds accepts

rounds-ends_example :
    ((rounds env answers capi_machine 5 (treatment new_remediation)).remediation.phase
      ≡ Phase.deleting)
    × ((rounds env answers capi_machine 5 (treatment new_remediation)).calls ≡ resets 42 2 [])
rounds-ends_example =
    rounds-ends env answers capi_machine compute_host robot_cluster resolves allows builds accepts
      (treatment new_remediation) refl (omega arith)

-- The one cluster, with its label.
abbrev clusters : Clusters
clusters ns = ok ((text "c1", robot_cluster) ∷ [])

abbrev deleted_host : Host
deleted_host = record compute_host { deleting = true }

reconcile_host-lets_go_example :
    ((reconcile_host env clusters deleted_host).1.has_finalizer ≡ false)
    × ((reconcile_host env clusters deleted_host).1.status.consumer_ref ≡ none)
    × ((reconcile_host env clusters deleted_host).1.status.machine_ref ≡ none)
reconcile_host-lets_go_example = reconcile_host-lets_go env clusters deleted_host refl

reconcile_host-keeps_addresses_example :
    ((is_empty deleted_host.spec.server_ip ≡ true)
      ⊎ ((reconcile_host env clusters deleted_host).1.spec.server_ip ≡ deleted_host.spec.server_ip))
    × ((is_empty deleted_host.spec.server_ipv6_net ≡ true)
        ⊎ ((reconcile_host env clusters deleted_host).1.spec.server_ipv6_net
            ≡ deleted_host.spec.server_ipv6_net))
reconcile_host-keeps_addresses_example = reconcile_host-keeps_addresses env clusters deleted_host

reconcile_gone-Ends_example :
    Ends (new_machine ∷ []) robot_cluster (reconcile_gone (ok (new_machine ∷ [])) robot_cluster)
reconcile_gone-Ends_example = reconcile_gone-Ends (new_machine ∷ []) robot_cluster refl
