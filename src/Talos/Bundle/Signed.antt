-- ===== src/Talos/Bundle/Signed.antt =====
-- The parts of the client configuration for a Talos node.
use cluster_api_provider_het.Prelude.{ℕ, ◌+◌, ◌-◌, ◌≡◌, [], ◌∷◌, arith}
use cluster_api_provider_het.Text.{Text, text}
use cluster_api_provider_het.Result.{Result, ok, map_err, and_then, and_then-eq-ok, map_err-eq-ok}
use cluster_api_provider_het.Talos.Bundle.{
  failing, Crypto, TlsConfig, admin_template, tls_config, machine_ca_from_machine_config,
  admin_tls_config_from_ca, admin_tls_config,
}

-- Where the pieces of a client's configuration come from.
pub record SignedBy (c : Crypto) (now : ℕ) (yaml : Text) (tls : TlsConfig) : Type 0 where
  pub ca : Text × Text
  pub keys : Text × Text
  pub serial : ℕ
  pub certificate : Text
  pub key : Text
  pub ca_read : machine_ca_from_machine_config c yaml ≡ ok ca
  pub generated : c.generate_key ≡ ok keys
  pub drawn : c.random_serial ≡ ok serial
  pub signed :
      c.create_certificate
        (record {
          serial = serial;
          organization = text "os:admin" ∷ [];
          not_before = now - 300000000000;
          not_after = now + 86400000000000;
        })
        ca.0
        keys.0
        ca.1
      ≡ ok certificate
  pub marshalled : c.marshal_pkcs8 keys.1 ≡ ok key
  pub holds : tls ≡ record {
    root_ca = c.pem_encode (text "CERTIFICATE") ca.0;
    certificate = c.pem_encode (text "CERTIFICATE") certificate;
    private_key = c.pem_encode (text "PRIVATE KEY") key;
    min_version = 771;
  }

and_then-wrapped :
    {A B : Type 0} (what : Text) (r : Result A) (f : A → Result B) {b : B}
    → and_then (map_err (failing what) r) f ≡ ok b
    → (a : A) × (r ≡ ok a) × (f a ≡ ok b)
and_then-wrapped what r f h =
    let (a, e, g) = and_then-eq-ok (map_err (failing what) r) f h in
    (a, map_err-eq-ok (failing what) r e, g)

tls_config-ok :
    (c : Crypto) (ca certificate key : Text) {tls : TlsConfig}
    → tls_config c ca certificate key ≡ ok tls
    → tls ≡ record {
      root_ca = c.pem_encode (text "CERTIFICATE") ca;
      certificate = c.pem_encode (text "CERTIFICATE") certificate;
      private_key = c.pem_encode (text "PRIVATE KEY") key;
      min_version = 771;
    }
unfolding tls_config
tls_config-ok c ca certificate key h = ground arith

-- A client configuration that is made trusts the CA of the machineconfig and nothing else, and its
-- certificate is one that this CA's key signed for the public part of the fresh key pair whose
-- private part the configuration holds; the certificate is for the role os:admin, from five minutes
-- ago until a day from now.
pub admin_tls_config-SignedBy :
    (c : Crypto) (now : ℕ) (yaml : Text) {tls : TlsConfig}
    → admin_tls_config c now yaml ≡ ok tls
    → SignedBy c now yaml tls
unfolding admin_tls_config admin_tls_config_from_ca
admin_tls_config-SignedBy c now yaml h =
    let (ca, e, g) =
      and_then-wrapped (text "read machine CA from machineconfig")
        (machine_ca_from_machine_config c yaml) (admin_tls_config_from_ca c now) h in
    let (keys, e1, g1) = and_then-wrapped (text "generate client Ed25519 key") c.generate_key _ g in
    let (serial, e2, g2) = and_then-wrapped (text "generate serial") c.random_serial _ g1 in
    let (certificate, e3, g3) =
      and_then-wrapped (text "sign client certificate")
        (c.create_certificate (admin_template now serial) ca.0 keys.0 ca.1) _ g2 in
    let (key, e4, g4) =
      and_then-wrapped (text "marshal client key") (c.marshal_pkcs8 keys.1) _ g3 in
    record {
      ca = ca;
      keys = keys;
      serial = serial;
      certificate = certificate;
      key = key;
      ca_read = e;
      generated = e1;
      drawn = e2;
      signed = e3;
      marshalled = e4;
      holds = tls_config-ok c ca.0 certificate key g4;
    }
