-- ===== src/Ignition/Kinds.antt =====
-- Values of a document that are maps and lists where they are there, and what then succeeds.
pub mod Storage
use mathlib.Core.Path.{subst}
use cluster_api_provider_het.Prelude.{◌≡◌, ◌⊎◌, inl, inr, refl, ◌∙◌, Option, none, some}
use cluster_api_provider_het.Text.{Text, text}
use cluster_api_provider_het.Text.Equal.{text_eq_refl}
use cluster_api_provider_het.Result.{Result, ok, and_then}
use cluster_api_provider_het.Config.{
  Value, Items, Fields, str, seq, obj, nil, end, get, set, child_map,
}
use cluster_api_provider_het.Config.Paths.{get-set_self}
use cluster_api_provider_het.Inject.{set_absent}
use cluster_api_provider_het.Inject.Settings.{or_else, get-set_absent}
use cluster_api_provider_het.Ignition.Document.{need_map, need_list, change_map, change_list}
use cluster_api_provider_het.Ignition.{ensure_list}

-- The value is absent or a map, and absent or a list.
abbrev pub MayBeMap : Option Value → Type 0
MayBeMap v = (v ≡ none) ⊎ ((m : Fields) × (v ≡ some (obj m)))

abbrev pub MayBeList : Option Value → Type 0
MayBeList v = (v ≡ none) ⊎ ((l : Items) × (v ≡ some (seq l)))

-- The value may be a map, and its entry at the key may be a list.
abbrev pub MayHold : Text → Option Value → Type 0
MayHold inner v = MayBeMap v × MayBeList (get inner (child_map v))

-- The value is a map whose entry at the key is a list.
abbrev pub Holds : Text → Option Value → Type 0
Holds inner v = (m : Fields) × (l : Items) × (v ≡ some (obj m)) × (get inner m ≡ some (seq l))

-- A file names its path.
abbrev pub HasPath : Fields → Type 0
HasPath file = (path : Text) × (get (text "path") file ≡ some (str path))

pub some_map :
    (v : Option Value)
    → MayBeMap v
    → (m : Fields) × (or_else v (some (obj end)) ≡ some (obj m)) × (child_map v ≡ m)
some_map v (inl gone) = (end, rw gone refl, rw gone refl)
some_map v (inr (m, there)) = (m, rw there refl, rw there refl)

pub some_list :
    (v : Option Value) → MayBeList v → (l : Items) × (or_else v (some (seq nil)) ≡ some (seq l))
some_list v (inl gone) = (nil, rw gone refl)
some_list v (inr (l, there)) = (l, rw there refl)

pub get-set_absent_self :
    (key : Text) (v : Value) (m : Fields)
    → get key (set_absent key v m) ≡ or_else (get key m) (some v)
get-set_absent_self key v m = rw (get-set_absent, text_eq_refl) refl

pub change_map-made :
    (key : Text) (f : Fields → Result Fields) (doc : Fields) {m m' : Fields}
    → get key doc ≡ some (obj m)
    → f m ≡ ok m'
    → change_map key f doc ≡ ok (set key (obj m') doc)
unfolding change_map need_map
change_map-made key f doc h g = rw (h, g) refl

pub change_list-made :
    (key : Text) (f : Items → Items) (m : Fields) {l : Items}
    → get key m ≡ some (seq l)
    → change_list key f m ≡ ok (set key (seq (f l)) m)
unfolding change_list need_list
change_list-made key f m h = rw h refl

pub and_then-made :
    {A B : Type 0} (r : Result A) (f : A → Result B) {a : A} {b : B}
    → r ≡ ok a
    → f a ≡ ok b
    → and_then r f ≡ ok b
and_then-made r f h g = rw h g

-- A missing map and a missing list in it are made.
pub ensure_list-made :
    (key inner : Text) (ign : Fields)
    → MayHold inner (get key ign)
    → (doc : Fields) × (ensure_list key inner ign ≡ ok doc) × Holds inner (get key doc)
unfolding ensure_list
ensure_list-made key inner ign (a, b) =
    let (m, e, same) = some_map (get key ign) a in
    let (l, g) = some_list (get inner m) (subst (λ c. MayBeList (get inner c)) same b) in
    let full = set_absent inner (seq nil) m in
    (
      set key (obj full) (set_absent key (obj end) ign),
      change_map-made key (λ x. ok (set_absent inner (seq nil) x)) _
          (get-set_absent_self key (obj end) ign ∙ e) refl,
      (full, l, get-set_self key (obj full) _, get-set_absent_self inner (seq nil) m ∙ g),
    )

pub MayHold-set :
    (key inner : Text) (m doc : Fields)
    → MayBeList (get inner m)
    → MayHold inner (get key (set key (obj m) doc))
MayHold-set key inner m doc a = rw (get-set_self key (obj m) doc) (inr (m, refl), a)
