-- ===== src/Config/Paths.antt =====
-- Reading a map after an update.
use cluster_api_provider_het.Prelude.{◌≡◌, refl, some, arith, if◌then◌else◌}
use cluster_api_provider_het.Text.{Text, text_eq}
use cluster_api_provider_het.Text.Equal.{text_eq_iff, text_eq_refl}
use cluster_api_provider_het.Config.{
  Value, Fields, obj, field, end, get, set, child_map, update_map,
}

pub get-set :
    (key j : Text) (v : Value) (m : Fields)
    → get j (set key v m) ≡ (if text_eq key j then some v else get j m)
unfolding get set
get-set key j v end = refl
get-set key j v (field k w m) =
    ground (arith, text_eq_iff k key, text_eq_iff k j, text_eq_iff key j, get-set key j v m)

pub get-set_self : (key : Text) (v : Value) (m : Fields) → get key (set key v m) ≡ some v
get-set_self key v m = rw (get-set, text_eq_refl)

pub child-update_map :
    (key : Text) (f : Fields → Fields) (m : Fields)
    → get key (update_map key f m) ≡ some (obj (f (child_map (get key m))))
unfolding update_map
child-update_map key f m = get-set_self key _ m
