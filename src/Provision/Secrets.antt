-- ===== src/Provision/Secrets.antt =====
-- controllers/hetznerrobotmachine_secrets.go and pkg/robot/from_secret.go
use cluster_api_provider_het.Prelude.{Option, none, some, List, [], ◌∷◌, if◌then◌else◌}
use cluster_api_provider_het.Text.{Text, text, concat, is_empty, trim_space}
use cluster_api_provider_het.Result.{Result, Done, ok, err}
use cluster_api_provider_het.Api.Cluster.{RobotCluster, SecretRef}
use cluster_api_provider_het.Api.Capi.{Machine}
use cluster_api_provider_het.SshRescue.Hardware.{lookup}
use cluster_api_provider_het.Provision.{Env, wrapped}

-- The value under a key of a secret's data.
unfoldable pub secret_value : Text → Text → List (Text × Text) → Result Text
unfolding lookup
secret_value message key entries = elim (lookup key entries) [ some v ↦ ok v | none ↦ err message ]

-- getBootstrapData
unfoldable pub get_bootstrap_data : Env → Machine → Result Text
unfolding secret_value
get_bootstrap_data env machine = elim machine.data_secret_name [
  | none ↦
      err (concat (text "bootstrap data secret not yet available on machine " ∷ machine.name ∷ []))
  | some name ↦ elim (env.get_secret machine.namespace name) [
    | err e ↦ err (wrapped (text "get bootstrap secret ") name e)
    | ok entries ↦
        secret_value (concat (text "bootstrap secret " ∷ name ∷ text " has no 'value' key" ∷ []))
          (text "value") entries
  ]
]

-- The namespace of a secret: the cluster's where the reference has none.
unfoldable pub secret_namespace : RobotCluster → SecretRef → Text
secret_namespace hrc ref = if is_empty ref.namespace then hrc.namespace else ref.namespace

-- buildRobotClient and robot.NewFromCluster; the client keeps only its credentials
unfoldable pub build_robot_client : Env → RobotCluster → Done
unfolding secret_namespace
build_robot_client env hrc =
    let ns = secret_namespace hrc hrc.robot_secret_ref in
    elim (env.get_secret ns hrc.robot_secret_ref.name) [
      | ok entries ↦ ok tt
      | err e ↦ err (
          concat (
            text "get robot secret "
            ∷ ns
            ∷ text "/"
            ∷ hrc.robot_secret_ref.name
            ∷ text ": "
            ∷ e
            ∷ []))
    ]

-- getSSHPrivateKey
unfoldable pub get_ssh_private_key : Env → RobotCluster → Result Text
unfolding secret_value secret_namespace
get_ssh_private_key env hrc =
    let ns = secret_namespace hrc hrc.ssh_secret_ref in
    let name = hrc.ssh_secret_ref.name in
    elim (env.get_secret ns name) [
      | err e ↦ err (concat (text "get SSH secret " ∷ ns ∷ text "/" ∷ name ∷ text ": " ∷ e ∷ []))
      | ok entries ↦
          secret_value
            (concat (text "SSH secret " ∷ name ∷ text " has no 'ssh-privatekey' key" ∷ []))
            (text "ssh-privatekey") entries
    ]

abbrev or_empty : Option Text → Text
or_empty none = []
or_empty (some v) = v

-- getSSHKeyFingerprint
unfoldable pub get_ssh_key_fingerprint : Env → RobotCluster → Result Text
unfolding lookup secret_namespace
get_ssh_key_fingerprint env hrc =
    elim (env.get_secret (secret_namespace hrc hrc.ssh_secret_ref) hrc.ssh_secret_ref.name) [
      | err e ↦ err (wrapped (text "get SSH secret") [] e)
      | ok entries ↦ ok (or_empty (lookup (text "ssh-fingerprint") entries))
    ]

-- getSSHPublicKey
unfoldable pub get_ssh_public_key : Env → RobotCluster → Result Text
unfolding get_ssh_private_key
get_ssh_public_key env hrc = elim (get_ssh_private_key env hrc) [
  | err e ↦ err (wrapped (text "get SSH private key for public key derivation") [] e)
  | ok key ↦ elim (env.network.key_error key) [
    | some e ↦ err (wrapped (text "parse SSH private key") [] e)
    | none ↦ ok (trim_space (env.network.authorized_key key))
  ]
]
