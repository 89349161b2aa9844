-- ===== src/Config.antt =====
-- Documents of nested maps, as yaml.v3 and encoding/json decode them into interface{} values, and
-- the updates that the injectors make. A map is a list of entries with one entry for a key; Go's
-- maps have no order. A child map that Go changes through a second reference is changed by an
-- update of its parent. The codec is a parameter, since the YAML package is not part of the
-- repository.
pub mod Paths
use cluster_api_provider_het.Prelude.{
  ℕ, zero, suc, Bool, true, false, Option, none, some, List, [], ◌∷◌, if◌then◌else◌,
}
use cluster_api_provider_het.Text.{Text, text_eq}
use cluster_api_provider_het.Result.{Result}

mutual
  pub data Value : Type 0 where
    null : Value
    bool : Bool → Value
    num : ℕ → Value
    str : Text → Value
    seq : Items → Value
    obj : Fields → Value

  pub data Items : Type 0 where
    nil : Items
    item : Value → Items → Items

  pub data Fields : Type 0 where
    end : Fields
    field : Text → Value → Fields → Fields

-- m[key], v, ok
unfoldable pub get : Text → Fields → Option Value
get key end = none
get key (field k v m) = if text_eq k key then some v else get key m

-- m[key] = v
unfoldable pub set : Text → Value → Fields → Fields
set key v end = field key v end
set key v (field k w m) = if text_eq k key then field k v m else field k w (set key v m)

-- delete(m, key)
unfoldable pub delete : Text → Fields → Fields
delete key end = end
delete key (field k v m) = if text_eq k key then m else field k v (delete key m)

-- v.(map[string]interface{}), and an empty map where v is none or not a map
abbrev pub child_map : Option Value → Fields
child_map (some (obj m)) = m
child_map _ = end

-- ensureMap(parent, key), and a change of the child
unfoldable pub update_map : Text → (Fields → Fields) → Fields → Fields
update_map key f parent = set key (obj (f (child_map (get key parent)))) parent

-- v.([]interface{}), and an empty list where v is none or not a list
abbrev pub child_list : Option Value → Items
child_list (some (seq l)) = l
child_list _ = nil

-- append(l, v)
unfoldable pub append_item : Items → Value → Items
append_item nil v = item v nil
append_item (item w l) v = item w (append_item l v)

-- What the YAML package does: a document is a map, or the nil map where it is null.
pub record Codec : Type 0 where
  pub unmarshal : Text → Result (Option Fields)
  pub marshal : Fields → Result Text
