-- ===== src/SshRescue/Hardware.antt =====
-- HardwareInfo, ParseHardwareOutput and ResolveInstallDiskFromInfo.
use cluster_api_provider_het.Prelude.{
  ℕ, Bool, false, Option, none, some, List, [], ◌∷◌, ◌++◌, ◌==◌, ◌||◌, if◌then◌else◌, not,
}
use cluster_api_provider_het.Text.{
  Text, text, text_eq, is_empty, has_prefix, trim_prefix, trim_space, lines,
}
use cluster_api_provider_het.Result.{Result, ok, err}

-- The map of Ceph disks is the list of its keys, which all stand for true; a map of strings is an
-- association list with one entry for a key.
pub record HardwareInfo : Type 0 where
  pub primary_mac : Text
  pub gateway_ip : Text
  pub nvme_disks : List Text
  pub ceph_disks : List Text
  pub by_id_paths : List (Text × Text)

-- m[k], for a map of booleans
unfoldable pub has_key : Text → List Text → Bool
has_key k [] = false
has_key k (j ∷ m) = text_eq j k || has_key k m

-- m[k]
unfoldable pub lookup : Text → List (Text × Text) → Option Text
lookup k [] = none
lookup k ((j, v) ∷ m) = if text_eq j k then some v else lookup k m

-- m[k] = v
unfoldable pub insert : Text → Text → List (Text × Text) → List (Text × Text)
insert k v [] = (k, v) ∷ []
insert k v ((j, w) ∷ m) = if text_eq j k then (k, v) ∷ m else (j, w) ∷ insert k v m

abbrev cons_left : ℕ → Option (Text × Text) → Option (Text × Text)
cons_left c none = none
cons_left c (some (a, b)) = some (c ∷ a, b)

-- strings.SplitN(s, sep, 2); `none` where there is no separator
unfoldable pub split_pair : ℕ → Text → Option (Text × Text)
split_pair sep [] = none
split_pair sep (c ∷ s) =
    let rest = split_pair sep s in if c == sep then some ([], s) else cons_left c rest

unfoldable pub add_path : HardwareInfo → Option (Text × Text) → HardwareInfo
add_path hw none = hw
add_path hw (some (device, link)) = record hw { by_id_paths = insert device link hw.by_id_paths }

unfoldable pub add_key : Text → List Text → List Text
add_key k m = if has_key k m then m else k ∷ m

-- One pass of the loop over the lines.
unfoldable pub parse_line : HardwareInfo → Text → HardwareInfo
unfolding text has_prefix trim_prefix split_pair add_path
parse_line hw raw =
    let line = trim_space raw in
    if is_empty line
    then hw
    else if has_prefix line (text "MAC=")
    then record hw { primary_mac = trim_prefix line (text "MAC=") }
    else if has_prefix line (text "GATEWAY=")
    then record hw { gateway_ip = trim_prefix line (text "GATEWAY=") }
    else if has_prefix line (text "DISK=")
    then record hw { nvme_disks = hw.nvme_disks ++ trim_prefix line (text "DISK=") ∷ [] }
    else if has_prefix line (text "CEPH=")
    then record hw { ceph_disks = add_key (trim_prefix line (text "CEPH=")) hw.ceph_disks }
    else if has_prefix line (text "BYID=")
    then add_path hw (split_pair b'=' (trim_prefix line (text "BYID=")))
    else hw

unfoldable pub parse_lines : HardwareInfo → List Text → HardwareInfo
parse_lines hw [] = hw
parse_lines hw (line ∷ rest) = parse_lines (parse_line hw line) rest

abbrev pub no_hardware : HardwareInfo
no_hardware = record {
  primary_mac = [];
  gateway_ip = [];
  nvme_disks = [];
  ceph_disks = [];
  by_id_paths = [];
}

-- The checks behind the loop.
unfoldable pub check_hardware : HardwareInfo → Result HardwareInfo
check_hardware hw =
    if is_empty hw.primary_mac
    then err (text "parse hardware output: MAC address not found")
    else if is_empty hw.gateway_ip
    then err (text "parse hardware output: gateway IP not found")
    else ok hw

unfoldable pub parse_hardware_output : Text → Result HardwareInfo
parse_hardware_output output = check_hardware (parse_lines no_hardware (lines output))

-- The disks without Ceph data.
unfoldable pub safe_disks : List Text → List Text → List Text
safe_disks ceph [] = []
safe_disks ceph (d ∷ l) =
    let rest = safe_disks ceph l in if not (has_key d ceph) then d ∷ rest else rest

-- The part of ResolveInstallDiskFromInfo behind the first loop.
unfoldable pub choose_disk : List Text → List Text → Text → Result Text
unfolding has_key
choose_disk [] [] configured = ok configured
choose_disk [] (d ∷ disks) configured =
    if not (is_empty configured)
    then ok configured
    else err (text "all NVMe disks have Ceph BlueStore data — cannot determine install disk safely")
choose_disk (d ∷ safes) disks configured =
    if has_key configured (d ∷ safes) then ok configured else ok d

unfoldable pub resolve_install_disk_from_info : HardwareInfo → Text → Result Text
unfolding choose_disk safe_disks
resolve_install_disk_from_info hw configured =
    choose_disk (safe_disks hw.ceph_disks hw.nvme_disks) hw.nvme_disks configured
