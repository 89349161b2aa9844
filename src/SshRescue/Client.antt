-- ===== src/SshRescue/Client.antt =====
-- The SSH client: Connect, Run, DetectHardware, IsReachable, IsRescueMode, IsFlatcarUp and
-- CheckFlatcarBootstrapComplete. The network and the ssh package are parameters.
use cluster_api_provider_het.Prelude.{
  ℕ, Bool, true, false, Option, none, some, [], ◌∷◌, is_some, not,
}
use cluster_api_provider_het.Text.{Text, text, text_eq, concat, trim_space}
use cluster_api_provider_het.Result.{Result, Done, ok, err}
use cluster_api_provider_het.SshRescue.Hardware.{HardwareInfo, parse_hardware_output}
use cluster_api_provider_het.SshRescue.Wipe.{Output}
use cluster_api_provider_het.SshRescue.Quote.{shell_quote}

-- What the network and golang.org/x/crypto/ssh answer. `exec` runs a command in a new session;
-- its error is the one of NewSession.
pub record Network : Type 0 where
  pub tcp_error : (ip : Text) → (port : ℕ) → Option Text
  pub key_error : (key : Text) → Option Text
  pub authorized_key : (key : Text) → Text
  pub handshake_error : (user : Text) → (ip : Text) → (key : Text) → Option Text
  pub exec : (user : Text) → (ip : Text) → (command : Text) → Result Output

abbrev ssh_port : ℕ
ssh_port = 22

pub step_error : Text → Text → Text → Text
step_error what name e = concat (what ∷ name ∷ text ": " ∷ e ∷ [])

-- The dial that Connect and CheckFlatcarBootstrapComplete share, with the message of a bad key.
unfoldable pub dial : Network → Text → Text → Text → Text → Done
dial net key_message user ip key = elim (net.key_error key) [
  | some e ↦ err (step_error key_message [] e)
  | none ↦ elim (net.tcp_error ip ssh_port) [
    | some e ↦ err (step_error (text "TCP connect to ") ip e)
    | none ↦ elim (net.handshake_error user ip key) [
      | some e ↦ err (step_error (text "SSH handshake to ") ip e)
      | none ↦ ok tt
    ]
  ]
]

-- Client.Connect
unfoldable pub connect : Network → Text → Text → Done
unfolding dial
connect net ip key = dial net (text "parse SSH private key") (text "root") ip key

pub command_failed : Text → Text → Text
command_failed e out = concat (text "command failed: " ∷ e ∷ text "\noutput: " ∷ out ∷ [])

abbrev run_output : Output → Output
run_output o = elim o.failure [
  | none ↦ o
  | some e ↦ record { out = o.out; failure = some (command_failed e o.out) }
]

-- Client.Run on a connected client
unfoldable pub run : Network → Text → Text → Output
run net ip command =
    elim (net.exec (text "root") ip (concat (text "bash -c " ∷ shell_quote command ∷ []))) [
      | err e ↦ record { out = []; failure = some (step_error (text "new session") [] e) }
      | ok o ↦ run_output o
    ]

pub detect_command : Text
detect_command =
    text
      "echo \"MAC=$(ip link show $(ip route show default | awk '{print $5}') | grep ether | awk '{print $2}')\"\necho \"GATEWAY=$(ip route | grep default | awk '{print $3}' | head -1)\"\nfor d in $(lsblk -dn -o NAME,TYPE | awk '$2==\"disk\" && $1~/^nvme/ {print \"/dev/\"$1}'); do\n  echo \"DISK=$d\"\n  if blkid \"$d\"* 2>/dev/null | grep -q ceph_bluestore; then\n    echo \"CEPH=$d\"\n  fi\ndone\nfor link in /dev/disk/by-id/nvme-*; do\n  [ -L \"$link\" ] || continue\n  case \"$link\" in *-part*) continue;; esac\n  target=$(readlink -f \"$link\")\n  echo \"BYID=$target=$link\"\ndone"

-- Client.DetectHardware
unfoldable pub detect_hardware : Network → Text → Result HardwareInfo
unfolding run
detect_hardware net ip =
    let o = run net ip detect_command in
    elim o.failure [
      | some e ↦ err (concat (text "detect hardware: " ∷ e ∷ text "\nOutput: " ∷ o.out ∷ []))
      | none ↦ parse_hardware_output o.out
    ]

-- IsReachable
unfoldable pub is_reachable : Network → Text → Bool
is_reachable net ip = not (is_some (net.tcp_error ip ssh_port))

pub rescue_command : Text
rescue_command =
    text
      "if mount | grep 'on / ' | grep -q tmpfs; then echo RESCUE; elif grep -qi 'Hetzner Rescue' /etc/motd 2>/dev/null; then echo RESCUE; elif [ \"$(hostname)\" = \"rescue\" ]; then echo RESCUE; else echo NORMAL; fi"

-- IsRescueMode
unfoldable pub is_rescue_mode : Network → Text → Text → Result Bool
unfolding connect run
is_rescue_mode net ip key = elim (connect net ip key) [
  | err e ↦ err (step_error (text "SSH connect for rescue check on ") ip e)
  | ok u ↦
      let o = run net ip rescue_command in
      elim o.failure [
        | some e ↦ err (
            concat (
              text "rescue mode detection on "
              ∷ ip
              ∷ text ": "
              ∷ e
              ∷ text " (output: "
              ∷ o.out
              ∷ text ")"
              ∷ []))
        | none ↦ ok (text_eq (trim_space o.out) (text "RESCUE"))
      ]
]

-- IsFlatcarUp
unfoldable pub is_flatcar_up : Network → Text → Text → Bool
unfolding dial
is_flatcar_up net ip key = elim (dial net [] (text "core") ip key) [ ok u ↦ true | err e ↦ false ]

pub sentinel_command : Text
sentinel_command =
    text "test -f /run/cluster-api/bootstrap-success.complete && echo READY || echo WAITING"

-- CheckFlatcarBootstrapComplete
unfoldable pub check_flatcar_bootstrap_complete : Network → Text → Text → Result Bool
unfolding dial
check_flatcar_bootstrap_complete net ip key =
    elim (dial net (text "parse SSH key") (text "core") ip key) [
      | err e ↦ err e
      | ok u ↦ elim (net.exec (text "core") ip sentinel_command) [
        | err e ↦ err (step_error (text "new session") [] e)
        | ok o ↦ elim o.failure [
          | some e ↦
              err (concat (text "check bootstrap sentinel: " ∷ e ∷ text "\nOutput: " ∷ o.out ∷ []))
          | none ↦ ok (text_eq (trim_space o.out) (text "READY"))
        ]
      ]
    ]
