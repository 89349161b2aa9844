-- ===== src/SshRescue/Wipe.antt =====
-- WipeAllDisks: the command for the rescue shell, and the check of its confirmation lines.
pub mod Confirmed
use cluster_api_provider_het.Prelude.{
  ℕ, Bool, true, false, Option, none, some, List, [], ◌∷◌, map, ◌++◌, if◌then◌else◌, is_some,
}
use cluster_api_provider_het.Text.{
  Text, text, concat, is_empty, has_prefix, trim_prefix, trim_space, lines, join,
}
use cluster_api_provider_het.Text.Decimal.{itoa}
use cluster_api_provider_het.Prelude.{length}
use cluster_api_provider_het.SshRescue.Quote.{shell_quote}
use cluster_api_provider_het.SshRescue.Hardware.{has_key, add_key}

-- What a command run on the server gives: its output, and the error if there is one.
pub record Output : Type 0 where
  pub out : Text
  pub failure : Option Text

pub wipe_command : List Text → Text
wipe_command disks = concat (
    text "for d in "
    ∷ join (text " ") (map shell_quote disks)
    ∷ text "; do (wipefs -af \"$d\" 2>/dev/null; sgdisk --zap-all \"$d\" 2>/dev/null; "
    ∷ text "dd if=/dev/zero of=\"$d\" bs=1M count=100 conv=notrunc 2>/dev/null; "
    ∷ text "DISK_SIZE=$(blockdev --getsize64 \"$d\" 2>/dev/null); "
    ∷ text "if [ -n \"$DISK_SIZE\" ] && [ \"$DISK_SIZE\" -gt 104857600 ]; then "
    ∷ text
        "dd if=/dev/zero of=\"$d\" bs=1M count=100 seek=$(( (DISK_SIZE / 1048576) - 100 )) conv=notrunc 2>/dev/null; "
    ∷ text "fi; blkdiscard \"$d\" 2>/dev/null; sync; echo \"WIPED=$d\") & done; wait; "
    ∷ text "echo \"ALL_DONE\""
    ∷ [])

-- The loop that collects the confirmed disks.
unfoldable pub confirmed : List Text → List Text
confirmed [] = []
confirmed (raw ∷ rest) =
    let line = trim_space raw in
    let more = confirmed rest in
    if has_prefix line (text "WIPED=")
    then add_key (trim_prefix line (text "WIPED=")) more
    else more

unfoldable pub missing : List Text → List Text → List Text
missing wiped [] = []
missing wiped (d ∷ disks) =
    let rest = missing wiped disks in if has_key d wiped then rest else d ∷ rest

-- The error for disks that are not confirmed, if there are any.
unfoldable pub check_missing : List Text → Option Text
check_missing [] = none
check_missing (d ∷ l) = some (
    concat (
      text "wipe all disks: "
      ∷ itoa (length (d ∷ l))
      ∷ text " disk(s) not confirmed wiped: "
      ∷ join (text ", ") (d ∷ l)
      ∷ []))

unfoldable pub check_wipe : List Text → Output → Output
check_wipe disks ran = elim ran.failure [
  | some e ↦ record {
    out = ran.out;
    failure = some (concat (text "wipe all disks: " ∷ e ∷ text "\nOutput: " ∷ ran.out ∷ []));
  }
  | none ↦ record {
    out = ran.out;
    failure = check_missing (missing (confirmed (lines ran.out)) disks);
  }
]

-- `run` is Client.Run on the rescue shell.
unfoldable pub wipe_all_disks : (Text → Output) → List Text → Output
unfolding check_wipe
wipe_all_disks run [] = record {
  out = [];
  failure = some (text "wipe all disks: no disks specified");
}
wipe_all_disks run (d ∷ disks) = check_wipe (d ∷ disks) (run (wipe_command (d ∷ disks)))
