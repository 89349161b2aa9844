-- ===== src/Witness/Talos.antt =====
-- A client certificate that is made with concrete answers of the packages.
use cluster_api_provider_het.Prelude.{◌≡◌, refl, true, none, some}
use cluster_api_provider_het.Text.{text}
use cluster_api_provider_het.Result.{ok}
use cluster_api_provider_het.Talos.Bundle.{
  ed25519, Crypto, TlsConfig, decode_certificate, decode_key, decode_ca_pkcs8_ed25519,
  machine_ca_from_machine_config, tls_config, admin_tls_config_from_ca, admin_tls_config,
}
use cluster_api_provider_het.Talos.Bundle.Signed.{SignedBy, admin_tls_config-SignedBy}

abbrev crypto : Crypto
crypto = record {
  decode_ca = λ yaml. ok (text "crt", text "key");
  base64_decode = λ t. ok t;
  pem_decode = λ t. some t;
  pem_encode = λ kind bytes. bytes;
  parse_certificate = λ der. ok tt;
  parse_pkcs8 = λ der. ok (ed25519 der);
  marshal_pkcs8 = λ key. ok key;
  generate_key = ok (text "public", text "private");
  random_serial = ok 7;
  create_certificate = λ template parent public signer. ok signer;
  key_pair_error = λ certificate key. none;
  append_certs = λ pem. true;
}

abbrev tls : TlsConfig
tls = record {
  root_ca = text "crt";
  certificate = text "key";
  private_key = text "private";
  min_version = 771;
}

makes : admin_tls_config crypto 500000000000 (text "yaml") ≡ ok tls
unfolding admin_tls_config machine_ca_from_machine_config decode_ca_pkcs8_ed25519 decode_certificate
    decode_key admin_tls_config_from_ca tls_config text
makes = refl

admin_tls_config-SignedBy_example : SignedBy crypto 500000000000 (text "yaml") tls
admin_tls_config-SignedBy_example =
    admin_tls_config-SignedBy crypto 500000000000 (text "yaml") makes
