-- ===== src/Witness/SshRescue.antt =====
-- The rescue shell at concrete inputs.
use mathlib.Core.List.{Memᴰ}
use cluster_api_provider_het.Prelude.{◌≡◌, ◌↔◌, ◌⊎◌, refl, none, some, List, [], ◌∷◌, arith}
use cluster_api_provider_het.Text.{Text, text, text_eq, trim_space, lines, IsLine}
use cluster_api_provider_het.Result.{ok}
use cluster_api_provider_het.SshRescue.Hardware.{
  HardwareInfo, has_key, no_hardware, check_hardware, parse_hardware_output,
  resolve_install_disk_from_info,
}
use cluster_api_provider_het.SshRescue.Quote.{read_word, bare, shell_quote, read_word-shell_quote}
use cluster_api_provider_het.SshRescue.Report.{
  Entry, mac, gateway, disk, by_id, line, report, notes, AllClean, parse_hardware_output-report,
}
use cluster_api_provider_het.SshRescue.Disk.{IsSafe, resolve_install_disk-IsSafe}
use cluster_api_provider_het.SshRescue.Wipe.{Output, wipe_command, wipe_all_disks}
use cluster_api_provider_het.SshRescue.Wipe.Confirmed.{AllConfirmed, wipe_all_disks-confirmed}

abbrev disk_a : Text
disk_a = text "/dev/nvme0n1"

abbrev disk_b : Text
disk_b = text "/dev/nvme1n1"

-- The configured first disk has Ceph data, the second has none.
abbrev two_disks : HardwareInfo
two_disks = record no_hardware { nvme_disks = disk_a ∷ disk_b ∷ []; ceph_disks = disk_a ∷ [] }

resolve_install_disk-IsSafe_example :
    (c : Text) × (resolve_install_disk_from_info two_disks disk_a ≡ ok c)
    × IsSafe two_disks c
    × ((c ≡ disk_a) ⊎ ¬ IsSafe two_disks disk_a)
resolve_install_disk-IsSafe_example =
    resolve_install_disk-IsSafe two_disks disk_a disk_b
      (Memᴰ.tail (Memᴰ.head refl), unfold has_key text_eq text in refl)

read_word-shell_quote_example : read_word bare (shell_quote (text "it's")) ≡ some (text "it's")
read_word-shell_quote_example = read_word-shell_quote (text "it's")

abbrev entries : List Entry
entries =
    mac (text "aa:bb") ∷ gateway (text "10.0.0.1") ∷ disk disk_a ∷ by_id disk_a (text "/x") ∷ []

entries-AllClean : AllClean entries
unfolding line text trim_space IsLine
entries-AllClean = (
  record { one_line = omega arith; trimmed = refl; device = tt },
  (
    record { one_line = omega arith; trimmed = refl; device = tt },
    (
      record { one_line = omega arith; trimmed = refl; device = tt },
      (record { one_line = omega arith; trimmed = refl; device = omega arith }, tt),
    ),
  ),
)

parse_hardware_output-report_example :
    parse_hardware_output (report entries) ≡ check_hardware (notes no_hardware entries)
parse_hardware_output-report_example = parse_hardware_output-report entries entries-AllClean

abbrev echo : Text → Output
echo cmd = record { out = text "WIPED=/dev/nvme0n1"; failure = none }

wipe_all_disks-confirmed_example : ((wipe_all_disks echo (disk_a ∷ [])).failure ≡ none) ↔ (
    ((echo (wipe_command (disk_a ∷ []))).failure ≡ none)
    × AllConfirmed (lines (echo (wipe_command (disk_a ∷ []))).out) (disk_a ∷ []))
wipe_all_disks-confirmed_example = wipe_all_disks-confirmed echo disk_a []
