-- ===== src/Witness.antt =====
-- Test data, and every property of the development at concrete inputs.
mod Policy
mod Ownership
mod SshRescue
mod Provision
mod Reconcilers
mod Watch
mod Inject
mod Ignition
mod Talos
use cluster_api_provider_het.Prelude.{ℕ, Bool, true, false, Option, none, some, List, [], ◌∷◌}
use cluster_api_provider_het.Text.{Text, text}
use cluster_api_provider_het.Result.{Result, ok}
use cluster_api_provider_het.Api.Host.{
  Host, HostSpec, HostStatus, HostState, LifecycleClass, DestructivePolicy,
}
use cluster_api_provider_het.Api.Machine.{
  RobotMachine, MachineSpec, MachineStatus, ProvisioningState, none_yet,
}
use cluster_api_provider_het.Api.Cluster.{RobotCluster}
use cluster_api_provider_het.Api.Capi.{Machine}
use cluster_api_provider_het.Api.Release.{HostRelease}
use cluster_api_provider_het.World.{World, Kube, Lookup}
use cluster_api_provider_het.Config.{Codec, end}
use cluster_api_provider_het.SshRescue.Wipe.{Output}
use cluster_api_provider_het.Provision.{Env}

abbrev pub compute_host : Host
compute_host = record {
  name = text "h1";
  namespace = text "ns";
  cluster_name = text "c1";
  has_finalizer = true;
  deleting = false;
  spec = record {
    server_id = 42;
    server_ip = text "1.2.3.4";
    server_ipv6_net = [];
    internal_ip = [];
    install_disk = text "/dev/nvme0n1";
    lifecycle_class = LifecycleClass.compute;
    maintenance_mode = false;
    policy = DestructivePolicy.always_clean_slate;
  };
  status = record {
    state = HostState.available;
    consumer_ref = none;
    machine_ref = none;
    hardware_details = none;
    last_consumer_ref = none;
    dirty_reason = [];
    error_message = [];
  };
}

abbrev pub new_status : MachineStatus
new_status = record {
  ready = false;
  initialization = none;
  addresses = [];
  provisioning_state = none_yet;
  host_ref = [];
  primary_mac = [];
  gateway_ip = [];
  resolved_install_disk = [];
  failure_reason = none;
  failure_message = none;
  provision_started = none;
  retry_count = 0;
  last_retry_timestamp = none;
  last_reset_time = none;
  ready_condition = none;
}

-- A new machine that names its host.
abbrev pub new_machine : RobotMachine
new_machine = record {
  name = text "m1";
  namespace = text "ns";
  cluster_name = text "c1";
  has_finalizer = true;
  deleting = false;
  spec = record {
    provider_id = none;
    host_ref = some (text "h1");
    host_selector = none;
    os_type = text "talos";
    talos_schematic = text "s";
    talos_version = text "v1";
    flatcar_channel = [];
    install_disk = [];
    custom_image_url = [];
  };
  status = new_status;
}

abbrev pub capi_machine : Machine
capi_machine = record {
  name = text "cm1";
  namespace = text "ns";
  uid = text "u1";
  is_control_plane = false;
  infrastructure_name = text "m1";
  data_secret_name = some (text "b1");
  node_ref = none;
  conditions = [];
}

abbrev pub robot_cluster : RobotCluster
robot_cluster = record {
  name = text "c1";
  namespace = text "ns";
  has_finalizer = true;
  deleting = false;
  control_plane_endpoint = record { host = text "1.1.1.1"; port = 6443 };
  robot_secret_ref = record { name = text "robot"; namespace = [] };
  ssh_secret_ref = record { name = text "ssh"; namespace = [] };
  talos_factory_base_url = [];
  vlan_config = none;
  ready = true;
  initialization = some true;
  ready_condition = none;
}

-- An API server that answers every request.
abbrev pub kube : Kube
kube = record {
  get_host_error = λ ns n. none;
  list_hosts_error = none;
  label_selector = λ s. ok (λ h. true);
  helper_error = none;
  patch_host_error = λ h. none;
  lookup_machine = λ ns n. Lookup.not_found;
  releases = λ ns. ok [];
}

abbrev pub new_world : World
new_world = record {
  hosts = compute_host ∷ [];
  calls = [];
  machine = new_machine;
  stored_machine = new_machine;
  cluster = robot_cluster;
}

-- A rescue shell that reports one disk, and whose other commands print nothing.
abbrev shell : Text → Text → Text → Result Output
shell user ip command =
    ok (record { out = text "MAC=aa\nGATEWAY=1.1.1.1\nDISK=/dev/nvme0n1\n"; failure = none })

-- A codec whose only document is the empty one.
abbrev codec : Codec
codec = record { unmarshal = λ t. ok (some end); marshal = λ m. ok [] }

-- An outside that answers every request; the time is the nanosecond 500.
abbrev pub env : Env
env = record {
  now = 500;
  format_time = λ t. [];
  kube = kube;
  get_secret = λ ns n. ok ((text "ssh-privatekey", text "k") ∷ []);
  cluster_helper_error = none;
  patch_cluster_error = λ c. none;
  network = record {
    tcp_error = λ ip port. none;
    key_error = λ k. none;
    authorized_key = λ k. k;
    handshake_error = λ user ip k. none;
    exec = shell;
  };
  http = record {
    request_error = λ r. none;
    round_trip = λ r. ok (record { status = 200; body = ok [] });
    rescue_active = λ b. ok true;
    server_info = λ b. ok (record { server_ip = []; server_ipv6_net = [] });
    any_json = λ b. ok tt;
  };
  grpc = record { port_error = λ ip. none; conn_error = λ ip. none; call_error = λ ip r. none };
  codec = codec;
  base64 = λ t. t;
  json = record { codec = codec; print = λ v. [] };
}

-- The new machine in a given state.
abbrev pub in_state : ProvisioningState → RobotMachine
in_state state = record new_machine { status = record new_status { provisioning_state = state } }
