-- ===== src/Talos.antt =====
-- pkg/talos/client.go: which Talos is running, and what it is asked. gRPC is a parameter.
pub mod Bundle
pub mod Bootstrap
use cluster_api_provider_het.Prelude.{
  Bool, true, false, Option, none, some, List, [], ◌∷◌, ◌||◌, if◌then◌else◌, is_some, not,
}
use cluster_api_provider_het.Text.{Text, text, concat, contains}
use cluster_api_provider_het.Result.{Done, ok, err}

pub data TalosRequest : Type 0 where
  probe : TalosRequest
  reset_system_disk : TalosRequest
  apply : (config : Text) → TalosRequest

-- The answers of gRPC and of net.Dial: an error, if there is one.
pub record Grpc : Type 0 where
  pub port_error : (ip : Text) → Option Text
  pub conn_error : (ip : Text) → Option Text
  pub call_error : (ip : Text) → TalosRequest → Option Text

-- IsUp
unfoldable pub is_up : Grpc → Text → Bool
is_up g ip = not (is_some (g.port_error ip))

-- IsK8sAPIUp; the answers are those of net.Dial on port 6443
unfoldable pub is_k8s_api_up : (Text → Option Text) → Text → Bool
is_k8s_api_up port_error ip = not (is_some (port_error ip))

-- strings.Contains(s, p) for one of the texts p
unfoldable pub contains_any : Text → List Text → Bool
contains_any s [] = false
contains_any s (p ∷ l) = contains s p || contains_any s l

abbrev pub unreachable_texts : List Text
unreachable_texts =
    text "deadline exceeded"
    ∷ text "context canceled"
    ∷ text "connection refused"
    ∷ text "connection reset"
    ∷ text "i/o timeout"
    ∷ text "EOF"
    ∷ text "Unavailable"
    ∷ text "transport:"
    ∷ []

-- What the error of the probe says.
unfoldable pub says_maintenance : Option Text → Bool
unfolding contains_any
says_maintenance none = true
says_maintenance (some e) =
    if contains e (text "certificate required")
    then false
    else not (contains_any e unreachable_texts)

-- IsInMaintenanceMode
unfoldable pub is_in_maintenance_mode : Grpc → Text → Bool
unfolding says_maintenance
is_in_maintenance_mode g ip = elim (g.conn_error ip) [
  | some e ↦ false
  | none ↦ says_maintenance (g.call_error ip probe)
]

pub request_error : Text → Text → Text → Text → Text
request_error what ip how e = concat (what ∷ ip ∷ how ∷ text ": " ∷ e ∷ [])

-- A request over an insecure connection, with the messages of its errors.
request : Grpc → Text → TalosRequest → Text → Text → Done
request g ip r conn what = elim (g.conn_error ip) [
  | some e ↦ err (request_error (text "connect to ") ip conn e)
  | none ↦ elim (g.call_error ip r) [ some e ↦ err (request_error what ip [] e) | none ↦ ok tt ]
]

-- WipeSystemDisk
unfoldable pub talos_wipe_system_disk : Grpc → Text → Done
unfolding request
talos_wipe_system_disk g ip =
    request g ip reset_system_disk (text " for system disk wipe")
      (text "reset with system disk wipe on ")

-- ApplyConfig
unfoldable pub talos_apply_config : Grpc → Text → Text → Done
unfolding request
talos_apply_config g ip config =
    request g ip (apply config) (text " (maintenance)") (text "ApplyConfiguration on ")

-- isAlreadyBootstrapped, on the error's text
unfoldable pub is_already_bootstrapped : Text → Bool
unfolding contains_any
is_already_bootstrapped e =
    contains_any e
      (text "already bootstrapped" ∷ text "AlreadyExists" ∷ text "etcd is already running" ∷ [])

-- IsTransientBootstrapError, on the error's text
unfoldable pub is_transient_bootstrap_error : Text → Bool
unfolding contains_any
is_transient_bootstrap_error e = contains_any e (
    text "connection refused"
    ∷ text "connection reset"
    ∷ text "EOF"
    ∷ text "deadline exceeded"
    ∷ text "Unavailable"
    ∷ text "transport:"
    ∷ text "tls:"
    ∷ text "certificate required"
    ∷ text "i/o timeout"
    ∷ [])
