-- ===== src/SshRescue/Image.antt =====
-- InstallTalos and InstallFlatcar: the commands for the rescue shell, and their errors. Base64 is a
-- parameter. `quoted` is fmt's %q on printable ASCII text.
use cluster_api_provider_het.Prelude.{
  Bool, none, some, List, [], ◌∷◌, ◌++◌, ◌==◌, ◌||◌, if◌then◌else◌, not,
}
use cluster_api_provider_het.Text.{Text, text, text_eq, concat, is_empty, trim_suffix}
use cluster_api_provider_het.Result.{Done, ok, err}
use cluster_api_provider_het.SshRescue.Wipe.{Output}

escape : Text → Text
escape [] = []
escape (c ∷ s) = if c == b'"' || c == b'\\' then b'\\' ∷ c ∷ escape s else c ∷ escape s

pub quoted : Text → Text
quoted s = concat (text "\"" ∷ escape s ∷ text "\"" ∷ [])

-- strings.TrimRight(s, "/")
unfoldable pub trim_slashes : Text → Text
trim_slashes [] = []
trim_slashes (c ∷ s) = elim (trim_slashes s) [
  | [] ↦ if c == b'/' then [] else c ∷ []
  | d ∷ t ↦ c ∷ d ∷ t
]

-- strings.HasSuffix(s, p), where p is not empty
pub ends_with : Text → Text → Bool
ends_with s p = not (text_eq (trim_suffix s p) s)

-- The image's URL, and the command that decompresses it.
unfoldable pub talos_image : Text → Text → Text → Text → Text × Text
talos_image factory schematic version custom =
    if is_empty custom
    then (
      concat (
          trim_slashes factory
          ∷ text "/image/"
          ∷ schematic
          ∷ text "/"
          ∷ version
          ∷ text "/metal-amd64.raw.xz"
          ∷ []),
      text "xzcat",
    )
    else (custom, if ends_with custom (text ".zst") then text "zstdcat" else text "xzcat")

pub talos_command : Text × Text → Text → Text
talos_command (url, decompress) disk = concat (
    text "curl -fsSL "
    ∷ quoted url
    ∷ text " | "
    ∷ decompress
    ∷ text " | dd of="
    ∷ quoted disk
    ∷ text " bs=4M conv=notrunc status=progress 2>&1"
    ∷ [])

-- `if out, err := c.Run(command); err != nil { return fmt.Errorf("<what>: %w\nOutput: %s", err, out) }`
unfoldable pub check_run : (Text → Output) → Text → Text → Done
check_run run what command =
    let o = run command in
    elim o.failure [
      | none ↦ ok tt
      | some e ↦ err (concat (what ∷ text ": " ∷ e ∷ text "\nOutput: " ∷ o.out ∷ []))
    ]

-- Client.InstallTalos
unfoldable pub install_talos_image : (Text → Output) → Text → Text → Text → Text → Text → Done
unfolding talos_image check_run
install_talos_image run factory schematic version disk custom =
    check_run run (concat (text "write raw image to " ∷ disk ∷ []))
      (talos_command (talos_image factory schematic version custom) disk)

-- Commands one after the other, up to the first that fails.
unfoldable pub check_runs : (Text → Output) → List (Text × Text) → Done
unfolding check_run
check_runs run [] = ok tt
check_runs run ((what, command) ∷ rest) = elim (check_run run what command) [
  | err e ↦ err e
  | ok u ↦ check_runs run rest
]

pub setup_command : Text
setup_command =
    text
      "\n\t\tcurl -fsSL -o /tmp/flatcar-install https://raw.githubusercontent.com/flatcar/init/flatcar-master/bin/flatcar-install && \\\n\t\tchmod +x /tmp/flatcar-install && \\\n\t\tapt-get install -y -qq gawk 2>&1 | tail -1 && \\\n\t\techo \"SETUP_OK\"\n\t"

pub partition_command : Text → Text
partition_command disk = concat (
    text "\n\t\tsgdisk -e "
    ∷ quoted disk
    ∷ text " 2>&1 && \\\n\t\tDISK_END=$(sgdisk -p "
    ∷ quoted disk
    ∷ text
        " | grep \"last usable sector\" | awk '{print $NF}') && \\\n\t\tSIZE_SECTORS=$((200 * 1024 * 1024 * 1024 / 512)) && \\\n\t\tSTART=$((DISK_END - SIZE_SECTORS + 1)) && \\\n\t\tsgdisk -n 10:${START}:${DISK_END} -t 10:8300 -c 10:r-dm-data "
    ∷ quoted disk
    ∷ text " 2>&1 && \\\n\t\tpartprobe "
    ∷ quoted disk
    ∷ text " 2>&1 && sleep 1 && \\\n\t\techo \"PARTITION_CREATED\"\n\t"
    ∷ [])

-- Step 3 of InstallFlatcar: the download of a custom image comes first.
unfoldable pub flatcar_steps : Text → Text → Text → List (Text × Text)
flatcar_steps channel disk custom =
    let what = concat (text "flatcar-install on " ∷ disk ∷ []) in
    if is_empty custom
    then (
      what,
      concat (
          text "/tmp/flatcar-install -d "
          ∷ disk
          ∷ text " -C "
          ∷ channel
          ∷ text " -i /tmp/ignition.json 2>&1"
          ∷ []),
    )
      ∷ []
    else (
      text "download custom image",
      concat (
          text "curl -fsSL -o /tmp/flatcar-custom.bin.bz2 "
          ∷ quoted custom
          ∷ text " && echo DL_OK"
          ∷ []),
    )
      ∷ (
        what,
        concat (
            text "/tmp/flatcar-install -d "
            ∷ disk
            ∷ text " -f /tmp/flatcar-custom.bin.bz2 -i /tmp/ignition.json 2>&1"
            ∷ []),
      )
      ∷ []

-- Client.InstallFlatcar
unfoldable pub install_flatcar_image :
    (Text → Text) → (Text → Output) → Text → Text → Text → Text → Done
unfolding flatcar_steps check_runs
install_flatcar_image base64 run channel disk custom ignition =
    let chosen = if is_empty channel then text "stable" else channel in
    check_runs run (
      (text "setup flatcar-install", setup_command)
        ∷ (
          text "write Ignition temp file",
          concat (
              text "echo '"
              ∷ base64 ignition
              ∷ text "' | base64 -d > /tmp/ignition.json && echo IGN_OK"
              ∷ []),
        )
        ∷ flatcar_steps chosen disk custom
      ++ (concat (text "create r-dm-data partition on " ∷ disk ∷ []), partition_command disk) ∷ [])
