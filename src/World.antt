-- ===== src/World.antt =====
-- What a reconcile of a HetznerRobotMachine acts on: the host objects of the API server, the
-- machine and cluster objects in memory, and the calls that leave for the Robot API, the rescue
-- shell and Talos. The API server's answers are parameters. No other client writes between two
-- steps of one reconcile; a conflict that the API server reports is an error of the patch.
pub mod Hosts
pub mod Calls
use cluster_api_provider_het.Prelude.{
  ℕ, Bool, true, false, Option, none, some, List, [], ◌∷◌, ◌&&◌, if◌then◌else◌,
}
use cluster_api_provider_het.Text.{Text, text, text_eq, concat}
use cluster_api_provider_het.Result.{Result, Done, ok, err}
use cluster_api_provider_het.Exec.{Exec}
use cluster_api_provider_het.Api.Host.{Host}
use cluster_api_provider_het.Api.Machine.{RobotMachine}
use cluster_api_provider_het.Api.Cluster.{RobotCluster}
use cluster_api_provider_het.Policy.{Releases}

-- Calls that change a server; `ip` addresses the rescue shell or the Talos API.
pub data Call : Type 0 where
  activate_rescue : (server_id : ℕ) → (fingerprint : Text) → Call
  reset_server : (server_id : ℕ) → Call
  deactivate_rescue : (server_id : ℕ) → Call
  wipe_all_disks : (ip : Text) → (disks : List Text) → Call
  install_talos : (ip : Text) → (disk : Text) → Call
  install_flatcar : (ip : Text) → (disk : Text) → (ignition : Text) → Call
  fix_boot_order : (ip : Text) → Call
  reboot : (ip : Text) → Call
  wipe_system_disk : (ip : Text) → Call
  apply_config : (ip : Text) → (config : Text) → Call

pub record World : Type 0 where
  pub hosts : List Host
  -- latest first
  pub calls : List Call
  pub machine : RobotMachine
  -- the machine as the API server holds it
  pub stored_machine : RobotMachine
  pub cluster : RobotCluster

-- The answer to a Get of a HetznerRobotMachine.
pub data Lookup : Type 0 where
  found not_found : Lookup
  failed : Text → Lookup

-- The answers of the API server and of the apimachinery package. An error of `get_host_error`
-- is one other than NotFound, which follows from the store.
pub record Kube : Type 0 where
  pub get_host_error : Text → Text → Option Text
  pub list_hosts_error : Option Text
  pub label_selector : Text → Result (Host → Bool)
  pub helper_error : Option Text
  pub patch_host_error : Host → Option Text
  pub lookup_machine : Text → Text → Lookup
  pub releases : Releases

abbrev pub is_at : Text → Text → Host → Bool
is_at namespace name host = text_eq host.namespace namespace && text_eq host.name name

unfoldable pub find_host : Text → Text → List Host → Option Host
find_host namespace name [] = none
find_host namespace name (h ∷ l) =
    if is_at namespace name h then some h else find_host namespace name l

-- The object at h's namespace and name becomes h.
unfoldable pub put_host : Host → List Host → List Host
put_host h [] = []
put_host h (g ∷ l) = if is_at h.namespace h.name g then h ∷ l else g ∷ put_host h l

-- The hosts of a namespace that a selector's predicate keeps.
unfoldable pub select_hosts : Text → (Host → Bool) → List Host → List Host
select_hosts namespace p [] = []
select_hosts namespace p (h ∷ l) =
    let rest = select_hosts namespace p l in
    if text_eq h.namespace namespace && p h then h ∷ rest else rest

-- r.Get(ctx, {Namespace, Name}, hrh)
unfoldable pub get_host : Kube → Text → Text → Exec World Host
get_host k namespace name w = elim (k.get_host_error namespace name) [
  | some e ↦ (err e, w)
  | none ↦ elim (find_host namespace name w.hosts) [
    | some h ↦ (ok h, w)
    | none ↦ (err (concat (text "hetznerrobothosts \"" ∷ name ∷ text "\" not found" ∷ [])), w)
  ]
]

-- r.List(ctx, list, InNamespace(namespace), MatchingLabelsSelector{selector})
unfoldable pub list_hosts : Kube → Text → (Host → Bool) → Exec World (List Host)
list_hosts k namespace p w = elim k.list_hosts_error [
  | some e ↦ (err e, w)
  | none ↦ (ok (select_hosts namespace p w.hosts), w)
]

-- patch.NewHelper and helper.Patch around a change of a host, with the message of each error.
unfoldable pub patch_host : Kube → Text → Text → Host → Exec World (Unit {0})
patch_host k init_message message h w = elim k.helper_error [
  | some e ↦ (err (concat (init_message ∷ text ": " ∷ e ∷ [])), w)
  | none ↦ elim (k.patch_host_error h) [
    | some e ↦ (err (concat (message ∷ text ": " ∷ e ∷ [])), w)
    | none ↦ (ok tt, record w { hosts = put_host h w.hosts })
  ]
]
