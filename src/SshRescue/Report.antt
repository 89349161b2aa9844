-- ===== src/SshRescue/Report.antt =====
-- ParseHardwareOutput against the lines that the detection script prints.
use cluster_api_provider_het.Prelude.{◌≡◌, refl, ap, ◌∙◌, some, List, [], ◌∷◌, ◌++◌, arith}
use cluster_api_provider_het.Text.{Text, text, trim_space, lines, IsLine, lines-line}
use cluster_api_provider_het.SshRescue.Hardware.{
  HardwareInfo, add_key, insert, split_pair, parse_line, parse_lines, no_hardware, check_hardware,
  parse_hardware_output,
}

-- What one `echo` of the script says.
pub data Entry : Type 0 where
  mac gateway disk ceph : Text → Entry
  by_id : (device : Text) → (link : Text) → Entry

unfoldable pub line : Entry → Text
unfolding text
line (mac t) = text "MAC=" ++ t
line (gateway t) = text "GATEWAY=" ++ t
line (disk t) = text "DISK=" ++ t
line (ceph t) = text "CEPH=" ++ t
line (by_id d l) = text "BYID=" ++ (d ++ b'=' ∷ l)

-- The output: each entry on a line of its own.
unfoldable pub report : List Entry → Text
report [] = []
report (e ∷ es) = line e ++ 10 ∷ report es

-- What an entry adds to the facts about the server.
unfoldable pub note : HardwareInfo → Entry → HardwareInfo
note hw (mac t) = record hw { primary_mac = t }
note hw (gateway t) = record hw { gateway_ip = t }
note hw (disk t) = record hw { nvme_disks = hw.nvme_disks ++ t ∷ [] }
note hw (ceph t) = record hw { ceph_disks = add_key t hw.ceph_disks }
note hw (by_id d l) = record hw { by_id_paths = insert d l hw.by_id_paths }

unfoldable pub notes : HardwareInfo → List Entry → HardwareInfo
notes hw [] = hw
notes hw (e ∷ es) = notes (note hw e) es

abbrev DeviceIsPlain : Entry → Type 0
DeviceIsPlain (by_id d l) = IsLine b'=' d
DeviceIsPlain _ = Unit

-- The entry's line has no line break and no white space at its ends, and a device no `=`.
pub record IsClean (e : Entry) : Type 0 where
  pub one_line : IsLine 10 (line e)
  pub trimmed : trim_space (line e) ≡ line e
  pub device : DeviceIsPlain e

abbrev pub AllClean : List Entry → Type 0
AllClean [] = Unit {0}
AllClean (e ∷ es) = IsClean e × AllClean es

split_pair-line : (d l : Text) → IsLine b'=' d → split_pair b'=' (d ++ b'=' ∷ l) ≡ some (d, l)
unfolding split_pair IsLine
split_pair-line [] l h = ground arith
split_pair-line (c ∷ d) l h = ground (arith, split_pair-line d l h.1)

parse_line-note : (hw : HardwareInfo) (e : Entry) → IsClean e → parse_line hw (line e) ≡ note hw e
unfolding parse_line note line
parse_line-note hw (mac t) c = rw (c.trimmed)
parse_line-note hw (gateway t) c = rw (c.trimmed)
parse_line-note hw (disk t) c = rw (c.trimmed)
parse_line-note hw (ceph t) c = rw (c.trimmed)
parse_line-note hw (by_id d l) c = rw (c.trimmed, split_pair-line d l c.device)

empty_line : (hw : HardwareInfo) → parse_lines hw (lines []) ≡ hw
unfolding parse_lines parse_line lines trim_space
empty_line hw = refl

parse_lines-notes :
    (hw : HardwareInfo) (es : List Entry)
    → AllClean es
    → parse_lines hw (lines (report es)) ≡ notes hw es
unfolding parse_lines notes report
parse_lines-notes hw [] c = empty_line hw
parse_lines-notes hw (e ∷ es) (c, cs) =
    ap (parse_lines hw) (lines-line (line e) (report es) c.one_line)
    ∙ (ap (λ (h : HardwareInfo). parse_lines h (lines (report es))) (parse_line-note hw e c)
        ∙ parse_lines-notes (note hw e) es cs)

-- The parser reads back, in order, every fact that the script prints: on the report of any clean
-- entries it gives the facts that the entries note, or the error that the MAC or the gateway is
-- missing.
pub parse_hardware_output-report :
    (es : List Entry)
    → AllClean es
    → parse_hardware_output (report es) ≡ check_hardware (notes no_hardware es)
unfolding parse_hardware_output
parse_hardware_output-report es c = ap check_hardware (parse_lines-notes no_hardware es c)
