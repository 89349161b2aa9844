-- ===== src/Ignition/Document.antt =====
-- The maps and lists of a decoded JSON document, as Go's type assertions see them. A nil slice is
-- the empty list.
pub mod Changes
use cluster_api_provider_het.Prelude.{ℕ, Bool, true, false, Option, none, some}
use cluster_api_provider_het.Text.{Text, text, text_eq}
use cluster_api_provider_het.Result.{Result, ok, err, and_then}
use cluster_api_provider_het.Config.{Value, Items, Fields, str, seq, obj, get, set}

-- v.(map[string]interface{}), ok
abbrev pub as_map : Option Value → Option Fields
as_map (some (obj m)) = some m
as_map _ = none

-- v.([]interface{}), ok
abbrev pub as_list : Option Value → Option Items
as_list (some (seq l)) = some l
as_list _ = none

-- v.(string), where any other value is ""
abbrev pub as_text : Option Value → Text
as_text (some (str s)) = s
as_text _ = text ""

-- v == s for an interface value v
abbrev pub is_text : Text → Option Value → Bool
is_text s (some (str t)) = text_eq t s
is_text s _ = false

pub panic : Text
panic = text "panic: interface conversion"

abbrev or_panic : {A : Type 0} → Option A → Result A
or_panic (some a) = ok a
or_panic none = err panic

-- v.(map[string]interface{}), v.([]interface{}) and v.(string), which panic
unfoldable pub need_map : Text → Fields → Result Fields
need_map key m = or_panic (as_map (get key m))

unfoldable pub need_list : Text → Fields → Result Items
need_list key m = or_panic (as_list (get key m))

unfoldable pub need_text : Text → Fields → Result Text
need_text key m = elim (get key m) [ some (str s) ↦ ok s | _ ↦ err panic ]

-- A change of the map at a key, which is shared with the document.
unfoldable pub change_map : Text → (Fields → Result Fields) → Fields → Result Fields
unfolding need_map
change_map key f doc =
    and_then (need_map key doc) λ m. and_then (f m) λ m'. ok (set key (obj m') doc)

-- A change of the list at a key.
unfoldable pub change_list : Text → (Items → Items) → Fields → Result Fields
unfolding need_list
change_list key f m = and_then (need_list key m) λ l. ok (set key (seq (f l)) m)
