-- ===== src/Talos/Bundle.antt =====
-- pkg/talos/bundle.go: the client certificate for the API of a configured Talos node. The crypto,
-- x509, pem, base64 and YAML packages are parameters; a certificate stands for its DER, and a key
-- for its bytes.
pub mod Signed
use cluster_api_provider_het.Prelude.{
  ℕ, ◌+◌, ◌-◌, Bool, true, false, ◌||◌, Option, none, some, List, [], ◌∷◌, if◌then◌else◌,
}
use cluster_api_provider_het.Text.{Text, text, concat, is_empty}
use cluster_api_provider_het.Result.{Result, Done, ok, err, map_err, and_then}

-- What x509.ParsePKCS8PrivateKey returns: an Ed25519 key, or a key of another Go type.
pub data PrivateKey : Type 0 where
  ed25519 : (bytes : Text) → PrivateKey
  other : (go_type : Text) → PrivateKey

-- The x509.Certificate that is signed; its key usages are constants.
pub record Template : Type 0 where
  pub serial : ℕ
  pub organization : List Text
  pub not_before : ℕ
  pub not_after : ℕ

-- The answers of the packages.
pub record Crypto : Type 0 where
  -- the first document's machine.ca.crt and machine.ca.key
  pub decode_ca : (yaml : Text) → Result (Text × Text)
  pub base64_decode : Text → Result Text
  -- pem.Decode: the bytes of the first block
  pub pem_decode : Text → Option Text
  pub pem_encode : (kind : Text) → (bytes : Text) → Text
  pub parse_certificate : (der : Text) → Done
  pub parse_pkcs8 : (der : Text) → Result PrivateKey
  pub marshal_pkcs8 : (key : Text) → Result Text
  -- a public and a private key
  pub generate_key : Result (Text × Text)
  pub random_serial : Result ℕ
  pub create_certificate :
      Template → (parent : Text) → (public : Text) → (signer : Text) → Result Text
  pub key_pair_error : (certificate_pem : Text) → (key_pem : Text) → Option Text
  pub append_certs : (pem : Text) → Bool

-- The parts of a tls.Config that are set.
pub record TlsConfig : Type 0 where
  pub root_ca : Text
  pub certificate : Text
  pub private_key : Text
  pub min_version : ℕ

-- fmt.Errorf("<what>: %w", err)
abbrev failing : Text → Text → Text
failing what e = concat (what ∷ text ": " ∷ e ∷ [])

abbrev or_err : {A : Type 0} → Text → Option A → Result A
or_err e (some a) = ok a
or_err e none = err e

abbrev need_ed25519 : PrivateKey → Result Text
need_ed25519 (ed25519 bytes) = ok bytes
need_ed25519 (other go_type) =
    err (concat (text "CA key is not Ed25519 (got " ∷ go_type ∷ text ")" ∷ []))

-- The certificate of decodeCAPKCS8Ed25519.
unfoldable pub decode_certificate : Crypto → Text → Result Text
decode_certificate c crt =
    and_then (map_err (failing (text "decode ca cert base64")) (c.base64_decode crt)) λ pem.
      and_then (or_err (text "ca cert: no PEM block found") (c.pem_decode pem)) λ der.
        and_then (map_err (failing (text "parse CA certificate")) (c.parse_certificate der))
          λ u. ok der

-- The key of decodeCAPKCS8Ed25519.
unfoldable pub decode_key : Crypto → Text → Result Text
decode_key c key =
    and_then (map_err (failing (text "decode ca key base64")) (c.base64_decode key)) λ pem.
      and_then (or_err (text "ca key: no PEM block found") (c.pem_decode pem)) λ der.
        and_then (map_err (failing (text "parse CA private key (PKCS#8)")) (c.parse_pkcs8 der))
          need_ed25519

-- decodeCAPKCS8Ed25519
unfoldable pub decode_ca_pkcs8_ed25519 : Crypto → Text → Text → Result (Text × Text)
unfolding decode_certificate decode_key
decode_ca_pkcs8_ed25519 c crt key =
    and_then (decode_certificate c crt)
      λ cert. and_then (decode_key c key) λ signer. ok (cert, signer)

abbrev need_ca : Text × Text → Result (Text × Text)
need_ca (crt, key) =
    if is_empty crt || is_empty key
    then err (text "machineconfig missing machine.ca.crt or machine.ca.key")
    else ok (crt, key)

-- MachineCAFromMachineConfig
unfoldable pub machine_ca_from_machine_config : Crypto → Text → Result (Text × Text)
unfolding decode_ca_pkcs8_ed25519
machine_ca_from_machine_config c yaml =
    and_then (map_err (failing (text "parse machineconfig YAML")) (c.decode_ca yaml))
      λ ca. and_then (need_ca ca) λ p. decode_ca_pkcs8_ed25519 c p.0 p.1

-- The certificate that is signed: it is valid from five minutes ago for a day and five minutes. The
-- clock is more than five minutes past its origin.
abbrev pub admin_template : ℕ → ℕ → Template
admin_template now serial = record {
  serial = serial;
  organization = text "os:admin" ∷ [];
  not_before = now - 300000000000;
  not_after = now + 86400000000000;
}

-- tls.X509KeyPair, the pool with the CA, and the configuration.
unfoldable pub tls_config : Crypto → Text → Text → Text → Result TlsConfig
tls_config c ca certificate key =
    let cert_pem = c.pem_encode (text "CERTIFICATE") certificate in
    let key_pem = c.pem_encode (text "PRIVATE KEY") key in
    let ca_pem = c.pem_encode (text "CERTIFICATE") ca in
    elim (c.key_pair_error cert_pem key_pem) [
      | some e ↦ err (failing (text "build TLS key pair") e)
      | none ↦
          if c.append_certs ca_pem
          then ok (record {
            root_ca = ca_pem;
            certificate = cert_pem;
            private_key = key_pem;
            min_version = 771;
          })
          else err (text "failed to add machine CA to cert pool")
    ]

-- adminTLSConfigFromCA
unfoldable pub admin_tls_config_from_ca : Crypto → ℕ → Text × Text → Result TlsConfig
unfolding tls_config
admin_tls_config_from_ca c now ca =
    and_then (map_err (failing (text "generate client Ed25519 key")) c.generate_key) λ keys.
      and_then (map_err (failing (text "generate serial")) c.random_serial) λ serial.
        and_then
          (map_err (failing (text "sign client certificate"))
            (c.create_certificate (admin_template now serial) ca.0 keys.0 ca.1))
          λ certificate.
            and_then (map_err (failing (text "marshal client key")) (c.marshal_pkcs8 keys.1))
              λ key. tls_config c ca.0 certificate key

-- AdminTLSConfig
unfoldable pub admin_tls_config : Crypto → ℕ → Text → Result TlsConfig
unfolding machine_ca_from_machine_config admin_tls_config_from_ca
admin_tls_config c now yaml =
    and_then
      (map_err (failing (text "read machine CA from machineconfig"))
        (machine_ca_from_machine_config c yaml))
      (admin_tls_config_from_ca c now)
