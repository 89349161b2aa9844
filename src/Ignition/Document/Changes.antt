-- ===== src/Ignition/Document/Changes.antt =====
-- What a change of a document's map or list leaves, and what it makes.
use cluster_api_provider_het.Prelude.{◌≡◌, refl, sym, ap, ◌∙◌, false, Option, none, some, arith}
use cluster_api_provider_het.Text.{Text, text_eq}
use cluster_api_provider_het.Text.Equal.{text_eq_iff, text_eq_refl}
use cluster_api_provider_het.Result.{Result, ok, Result_value, and_then-eq-ok}
use cluster_api_provider_het.Config.{
  Value, Items, Fields, seq, obj, nil, end, get, set, delete, child_map, child_list,
}
use cluster_api_provider_het.Config.Paths.{get-set, get-set_self}
use cluster_api_provider_het.Inject.{set_absent}
use cluster_api_provider_het.Inject.Settings.{or_else, get-set_absent}
use cluster_api_provider_het.Ignition.Document.{
  as_map, as_list, or_panic, need_map, need_list, change_map, change_list,
}

pub get-set_ne :
    (key j : Text) (v : Value) (m : Fields) → text_eq key j ≡ false → get j (set key v m) ≡ get j m
get-set_ne key j v m n = get-set key j v m ∙ rw n

pub get-delete_ne :
    (key j : Text) (m : Fields) → text_eq key j ≡ false → get j (delete key m) ≡ get j m
unfolding get delete
get-delete_ne key j Fields.end n = refl
get-delete_ne key j (Fields.field k v m) n =
    ground (arith, text_eq_iff k key, text_eq_iff k j, text_eq_iff key j, get-delete_ne key j m)

map_value : (v : Option Value) {c : Fields} → or_panic (as_map v) ≡ ok c → v ≡ some (obj c)
map_value (some (Value.obj m)) h = ground arith
map_value none h = cc
map_value (some _) h = cc

list_value : (v : Option Value) {l : Items} → or_panic (as_list v) ≡ ok l → v ≡ some (seq l)
list_value (some (Value.seq m)) h = ground arith
list_value none h = cc
list_value (some _) h = cc

need_map-ok :
    (key : Text) (m : Fields) {c : Fields} → need_map key m ≡ ok c → get key m ≡ some (obj c)
unfolding need_map
need_map-ok key m h = map_value (get key m) h

need_list-ok :
    (key : Text) (m : Fields) {l : Items} → need_list key m ≡ ok l → get key m ≡ some (seq l)
unfolding need_list
need_list-ok key m h = list_value (get key m) h

-- A change of the map at a key that succeeded.
pub record Changed (key : Text) (f : Fields → Result Fields) (doc doc' : Fields) : Type 0 where
  pub before : Fields
  pub after : Fields
  pub had : get key doc ≡ some (obj before)
  pub made : f before ≡ ok after
  pub has : get key doc' ≡ some (obj after)
  pub rest : (j : Text) → text_eq key j ≡ false → get j doc' ≡ get j doc

pub change_map-Changed :
    (key : Text) (f : Fields → Result Fields) (doc : Fields) {doc' : Fields}
    → change_map key f doc ≡ ok doc'
    → Changed key f doc doc'
unfolding change_map
change_map-Changed key f doc h =
    let (m, e, g) = and_then-eq-ok (need_map key doc) _ h in
    let (m', made, eq) = and_then-eq-ok (f m) _ g in
    record {
      before = m;
      after = m';
      had = need_map-ok key doc e;
      made = made;
      has = ap (get key) (sym (Result_value eq)) ∙ get-set_self key (obj m') doc;
      rest = λ j n. ap (get j) (sym (Result_value eq)) ∙ get-set_ne key j (obj m') doc n;
    }

-- A change of the list at a key that succeeded.
pub change_list-ok :
    (key : Text) (f : Items → Items) (m : Fields) {m' : Fields}
    → change_list key f m ≡ ok m'
    → (l : Items) × (get key m ≡ some (seq l)) × (m' ≡ set key (seq (f l)) m)
unfolding change_list
change_list-ok key f m h =
    let (l, e, g) = and_then-eq-ok (need_list key m) _ h in
    (l, need_list-ok key m e, sym (Result_value g))

or_else-none : (v : Option Value) → or_else v none ≡ v
or_else-none none = refl
or_else-none (some w) = refl

pub get-set_absent_ne :
    (key j : Text) (v : Value) (m : Fields)
    → text_eq key j ≡ false
    → get j (set_absent key v m) ≡ get j m
get-set_absent_ne key j v m n = get-set_absent key j v m ∙ rw n (or_else-none (get j m))

empty_map : (v : Option Value) → child_map (or_else v (some (obj end))) ≡ child_map v
empty_map none = refl
empty_map (some w) = refl

empty_list : (v : Option Value) → child_list (or_else v (some (seq nil))) ≡ child_list v
empty_list none = refl
empty_list (some w) = refl

pub child_map-set_absent :
    (key : Text) (m : Fields)
    → child_map (get key (set_absent key (obj end) m)) ≡ child_map (get key m)
child_map-set_absent key m = rw (get-set_absent, text_eq_refl) (empty_map (get key m))

pub child_list-set_absent :
    (key : Text) (m : Fields)
    → child_list (get key (set_absent key (seq nil) m)) ≡ child_list (get key m)
child_list-set_absent key m = rw (get-set_absent, text_eq_refl) (empty_list (get key m))

-- A change of a map that is made where it is missing leaves the other keys.
pub ensure_change-rest :
    (key : Text) (f : Fields → Result Fields) (ign : Fields) {doc : Fields} (j : Text)
    → change_map key f (set_absent key (obj end) ign) ≡ ok doc
    → text_eq key j ≡ false
    → get j doc ≡ get j ign
ensure_change-rest key f ign j h n =
    (change_map-Changed key f (set_absent key (obj end) ign) h).rest j n
    ∙ get-set_absent_ne key j (obj end) ign n
