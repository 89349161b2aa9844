-- ===== src/Inject/Settings.antt =====
-- What stands in a machineconfig after the install disk and the arguments of kubelet are put in.
use cluster_api_provider_het.Prelude.{
  ◌≡◌, Option, none, some, if◌then◌else◌, arith, ap, Option-cases, inl, inr,
}
use cluster_api_provider_het.Text.{Text, text, text_eq}
use cluster_api_provider_het.Text.Equal.{text_eq_iff}
use cluster_api_provider_het.Config.{Value, Fields, str, get, child_map, update_map}
use cluster_api_provider_het.Config.Paths.{get-set, child-update_map}
use cluster_api_provider_het.Inject.{set_absent, with_install_disk, with_extra_arg}

-- The map at a key, empty where there is none.
abbrev pub child : Text → Fields → Fields
child key m = child_map (get key m)

abbrev pub install_of : Fields → Fields
install_of doc = child (text "install") (child (text "machine") doc)

abbrev pub extra_args_of : Fields → Fields
extra_args_of doc = child (text "extraArgs") (child (text "kubelet") (child (text "machine") doc))

child-update :
    (key : Text) (f : Fields → Fields) (m : Fields)
    → child key (update_map key f m) ≡ f (child key m)
child-update key f m = ap child_map (child-update_map key f m)

-- The first value, or the second where there is none.
abbrev pub or_else : Option Value → Option Value → Option Value
or_else (some v) w = some v
or_else none w = w

pub get-set_absent :
    (key j : Text) (v : Value) (m : Fields)
    → get j (set_absent key v m) ≡ or_else (get j m) (if text_eq key j then some v else none)
unfolding set_absent
get-set_absent key j v m = elim (Option-cases (get key m)) [
  | inl gone ↦ ground (arith, gone, get-set key j v m, text_eq_iff key j)
  | inr (w, there) ↦ ground (arith, there, text_eq_iff key j)
]

-- The install map after the change has every field that it had, unchanged, and the given disk in
-- the field `disk` where it had none; a machine map or an install map that is missing is made.
pub with_install_disk-keeps :
    (disk : Text) (doc : Fields) (j : Text)
    → get j (install_of (with_install_disk disk doc))
      ≡ or_else (get j (install_of doc)) (if text_eq (text "disk") j then some (str disk) else none)
unfolding with_install_disk
with_install_disk-keeps disk doc j =
    rw (child-update, child-update) (get-set_absent (text "disk") j (str disk) (install_of doc))

-- The arguments of kubelet after the change: the given one has the given value, whatever it had
-- before, and every other one is as it was.
pub with_extra_arg-sets :
    (key v : Text) (doc : Fields) (j : Text)
    → get j (extra_args_of (with_extra_arg key v doc))
      ≡ (if text_eq key j then some (str v) else get j (extra_args_of doc))
unfolding with_extra_arg
with_extra_arg-sets key v doc j =
    rw (child-update, child-update, child-update) (get-set key j (str v) (extra_args_of doc))
