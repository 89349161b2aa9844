-- ===== src/World/Calls.antt =====
-- The calls that a step adds to those made before it.
use cluster_api_provider_het.Prelude.{◌≡◌, Bool, true, false, List, ◌∷◌}
use cluster_api_provider_het.Text.{Text, text_eq}
use cluster_api_provider_het.World.{
  Call, reset_server, wipe_all_disks, install_talos, install_flatcar, wipe_system_disk,
  apply_config,
}

-- The later calls are the earlier ones and calls of p in front of them.
pub data Adds (p : Call → Bool) : List Call → List Call → Type 0 where
  same : {l : List Call} → Adds p l l
  send : {l m : List Call} (c : Call) → p c ≡ true → Adds p l m → Adds p l (c ∷ m)

pub Adds-trans : (p : Call → Bool) {l m n : List Call} → Adds p l m → Adds p m n → Adds p l n
Adds-trans p a same = a
Adds-trans p a (send c h b) = send c h (Adds-trans p a b)

-- A call that gives a node its configuration; all others put at risk what is on the server.
abbrev pub is_apply : Call → Bool
is_apply (apply_config ip config) = true
is_apply _ = false

abbrev pub is_reset : Call → Bool
is_reset (reset_server id) = true
is_reset _ = false

-- A call other than a hardware reset.
abbrev pub is_no_reset : Call → Bool
is_no_reset (reset_server id) = false
is_no_reset _ = true

-- A call that does not write to a disk of the server.
abbrev pub keeps_disks : Call → Bool
keeps_disks (wipe_all_disks ip disks) = false
keeps_disks (install_talos ip disk) = false
keeps_disks (install_flatcar ip disk ignition) = false
keeps_disks (wipe_system_disk ip) = false
keeps_disks _ = true

-- A call that writes to no disk, or over the shell of the server at the given address: the wipe of
-- its disks and the image.
abbrev pub installs_at : Text → Call → Bool
installs_at at (wipe_all_disks ip disks) = text_eq ip at
installs_at at (install_talos ip disk) = text_eq ip at
installs_at at (install_flatcar ip disk ignition) = text_eq ip at
installs_at at (wipe_system_disk ip) = false
installs_at at _ = true

-- A call that writes to no disk, or the Talos API's wipe of the system disk at the given address.
abbrev pub wipes_system_at : Text → Call → Bool
wipes_system_at at (wipe_all_disks ip disks) = false
wipes_system_at at (install_talos ip disk) = false
wipes_system_at at (install_flatcar ip disk ignition) = false
wipes_system_at at (wipe_system_disk ip) = text_eq ip at
wipes_system_at at _ = true

pub Adds-weaken :
    (p q : Call → Bool) {l m : List Call}
    → ((c : Call) → p c ≡ true → q c ≡ true)
    → Adds p l m
    → Adds q l m
Adds-weaken p q h same = same
Adds-weaken p q h (send c e a) = send c (h c e) (Adds-weaken p q h a)
