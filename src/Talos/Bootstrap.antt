-- ===== src/Talos/Bootstrap.antt =====
-- Bootstrap of pkg/talos/client.go: etcd is started on the first node. gRPC is a parameter.
use cluster_api_provider_het.Prelude.{Option, none, some, [], if◌then◌else◌}
use cluster_api_provider_het.Text.{Text, text}
use cluster_api_provider_het.Result.{Done, ok, err}
use cluster_api_provider_het.Talos.{is_already_bootstrapped, request_error}
use cluster_api_provider_het.Talos.Bundle.{TlsConfig}

-- The answers of gRPC over mTLS: an error, if there is one.
pub record AuthenticatedGrpc : Type 0 where
  pub conn_error : (ip : Text) → TlsConfig → Option Text
  pub bootstrap_error : (ip : Text) → TlsConfig → Option Text

-- The answer of the call; "already bootstrapped" counts as success.
unfoldable pub bootstrap_answer : Text → Option Text → Done
bootstrap_answer ip none = ok tt
bootstrap_answer ip (some e) =
    if is_already_bootstrapped e then ok tt else err (request_error (text "Bootstrap on ") ip [] e)

-- Bootstrap
unfoldable pub talos_bootstrap : AuthenticatedGrpc → Text → TlsConfig → Done
unfolding bootstrap_answer
talos_bootstrap g ip tls = elim (g.conn_error ip tls) [
  | some e ↦ err (request_error (text "connect to ") ip (text " (authenticated)") e)
  | none ↦ bootstrap_answer ip (g.bootstrap_error ip tls)
]
