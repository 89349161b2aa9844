-- ===== src/Ignition/Kubelet.antt =====
-- How kubelet gets its arguments on a Flatcar machine.
use mathlib.Core.Path.{subst₂}
use cluster_api_provider_het.Prelude.{
  ◌≡◌, refl, sym, ap, ◌∙◌, true, false, Option, none, some, [], ◌∷◌, Bool-cases, inl, inr,
}
use cluster_api_provider_het.Text.{Text, text, text_eq, is_empty, concat}
use cluster_api_provider_het.Result.{ok, and_then, Result_value, and_then-eq-ok}
use cluster_api_provider_het.Config.{
  Value, Items, Fields, bool, str, seq, obj, nil, item, end, field, get, child_map, child_list,
  append_item,
}
use cluster_api_provider_het.Config.Paths.{get-set_self}
use cluster_api_provider_het.Inject.{set_absent}
use cluster_api_provider_het.Ignition.Keys.{storage_ne_systemd, passwd_ne_systemd}
use cluster_api_provider_het.Ignition.Document.{as_map, is_text}
use cluster_api_provider_het.Ignition.Document.Changes.{
  get-set_ne, change_map-Changed, change_list-ok, child_map-set_absent, child_list-set_absent,
}
use cluster_api_provider_het.Ignition.Files.{fix_inline}
use cluster_api_provider_het.Ignition.Files.Cleaned.{fix_inline-rest, remove_downloads-rest}
use cluster_api_provider_het.Ignition.Units.{
  new_unit, add_unit, kubelet_service, kubelet_dropin, with_dropin, add_dropin, add_kubelet_dropin,
  build_kubelet_extra_args,
}
use cluster_api_provider_het.Ignition.Stages.{
  stages, ensure_list-rest, put_network-rest, put_key-rest,
}
use cluster_api_provider_het.Ignition.{
  FlatcarInput, Json, ensure_list, put_kubelet_args, flatcar_document,
}

-- A unit with the drop-in behind those that it had, and with every other key as it was.
pub record Extends (dropin : Value) (unit unit' : Fields) : Type 0 where
  pub dropins :
      get (text "dropins") unit'
      ≡ some (seq (append_item (child_list (get (text "dropins") unit)) dropin))
  pub rest : (j : Text) → text_eq (text "dropins") j ≡ false → get j unit' ≡ get j unit

-- The later units are the earlier ones, in their order, but that the first one of kubelet.service,
-- which there is, has the drop-in.
pub data HasDropin (dropin : Value) : Items → Items → Type 0 where
  here :
      {unit unit' : Fields} {l : Items}
      → is_text (text "kubelet.service") (get (text "name") unit) ≡ true
      → Extends dropin unit unit'
      → HasDropin dropin (item (obj unit) l) (item (obj unit') l)
  later :
      {unit : Fields} {l m : Items}
      → is_text (text "kubelet.service") (get (text "name") unit) ≡ false
      → HasDropin dropin l m
      → HasDropin dropin (item (obj unit) l) (item (obj unit) m)
  skipped :
      {v : Value} {l m : Items}
      → as_map (some v) ≡ none
      → HasDropin dropin l m
      → HasDropin dropin (item v l) (item v m)

new_unit-IsKubelet :
    is_text kubelet_service (get (text "name") (new_unit kubelet_service false [])) ≡ true
unfolding get text text_eq
new_unit-IsKubelet = refl

put_here :
    (d : Value) (unit : Fields) (l : Items)
    → is_text kubelet_service (get (text "name") unit) ≡ true
    → HasDropin d (item (obj unit) l) (item (obj (with_dropin d unit)) l)
put_here d unit l found = here found (record {
  dropins = get-set_self (text "dropins") _ unit;
  rest = λ j n. get-set_ne (text "dropins") j _ unit n;
})

-- Behind the new unit of kubelet.service there always is one to take the drop-in.
add_dropin-HasDropin :
    (d : Value) (l : Items)
    → let grown = append_item l (obj (new_unit kubelet_service false [])) in
      HasDropin d grown (add_dropin d grown)
unfolding add_dropin append_item
add_dropin-HasDropin d nil =
    rw new_unit-IsKubelet (put_here d (new_unit kubelet_service false []) nil new_unit-IsKubelet)
add_dropin-HasDropin d (item (Value.obj unit) l) =
    elim (Bool-cases (is_text kubelet_service (get (text "name") unit))) [
      | inl found ↦ rw found (put_here d unit _ found)
      | inr other ↦ rw other (later other (add_dropin-HasDropin d l))
    ]
add_dropin-HasDropin d (item _ l) = skipped refl (add_dropin-HasDropin d l)

-- The units of a document.
abbrev pub units_of : Fields → Items
units_of ign = child_list (get (text "units") (child_map (get (text "systemd") ign)))

-- The drop-in 10-caphr-args.conf, which sets the arguments of kubelet.
abbrev pub args_dropin : Text → Value
args_dropin extra_args = obj (
    field (text "name") (str (text "10-caphr-args.conf")) (
      field (text "contents")
        (str (
          concat
            (text "[Service]\nEnvironment=\"KUBELET_EXTRA_ARGS=" ∷ extra_args ∷ text "\"\n" ∷ [])))
        end))

-- A unit kubelet.service that is not enabled and has no contents.
abbrev pub bare_kubelet : Value
bare_kubelet =
    obj
      (field (text "name") (str (text "kubelet.service")) (field (text "enabled") (bool false) end))

-- The units of a document with the arguments of kubelet, from the units that it had.
abbrev pub Supplied : Text → Items → Items → Type 0
Supplied extra_args old new = HasDropin (args_dropin extra_args) (append_item old bare_kubelet) new

supply :
    (extra_args : Text) (systemd : Fields) {s : Fields}
    → and_then (add_unit kubelet_service false [] systemd) (add_kubelet_dropin extra_args) ≡ ok s
    → Supplied extra_args
        (child_list (get (text "units") systemd))
        (child_list (get (text "units") s))
unfolding add_unit add_kubelet_dropin
supply extra_args systemd {s} h =
    let (m, e, g) = and_then-eq-ok (add_unit kubelet_service false [] systemd) _ h in
    let (l, had, made) = change_list-ok (text "units") _ systemd e in
    let (l', had', made') = change_list-ok (text "units") _ m g in
    let d = kubelet_dropin extra_args in
    let grown = append_item l (obj (new_unit kubelet_service false [])) in
    let same : l' ≡ grown =
      ap child_list
        (sym had' ∙ ap (get (text "units")) made ∙ get-set_self (text "units") _ systemd) in
    let new : child_list (get (text "units") s) ≡ add_dropin d grown =
      ap child_list (ap (get (text "units")) made' ∙ get-set_self (text "units") _ m)
      ∙ ap (add_dropin d) same in
    subst₂ (λ x y. HasDropin d (append_item x bare_kubelet) y) (sym (ap child_list had)) (sym new)
      (add_dropin-HasDropin d l)

put_kubelet_args-Supplied :
    (i : FlatcarInput) (ign : Fields) {doc : Fields}
    → is_empty (build_kubelet_extra_args i.provider_id i.internal_ip i.ipv6_net) ≡ false
    → put_kubelet_args i ign ≡ ok doc
    → Supplied
        (build_kubelet_extra_args i.provider_id i.internal_ip i.ipv6_net)
        (units_of ign)
        (units_of doc)
unfolding put_kubelet_args
put_kubelet_args-Supplied i ign {doc} n h =
    let c = change_map-Changed (text "systemd") _ ign (rw n at h) in
    let extra_args = build_kubelet_extra_args i.provider_id i.internal_ip i.ipv6_net in
    let old : child_list (get (text "units") c.before) ≡ units_of ign =
      ap (λ v. child_list (get (text "units") (child_map v))) (sym c.had) in
    let new : child_list (get (text "units") c.after) ≡ units_of doc =
      ap (λ v. child_list (get (text "units") (child_map v))) (sym c.has) in
    subst₂ (Supplied extra_args) old new (supply extra_args c.before c.made)

ensure_units :
    (ign : Fields) {doc : Fields}
    → ensure_list (text "systemd") (text "units") ign ≡ ok doc
    → units_of doc ≡ units_of ign
unfolding ensure_list
ensure_units ign {doc} h =
    let c =
      change_map-Changed (text "systemd") (λ m. ok (set_absent (text "units") (seq nil) m))
        (set_absent (text "systemd") (obj end) ign) h in
    ap (λ v. child_list (get (text "units") (child_map v))) c.has
    ∙ ap (λ m. child_list (get (text "units") m)) (sym (Result_value c.made))
    ∙ child_list-set_absent (text "units") c.before
    ∙ ap (λ v. child_list (get (text "units") (child_map v))) (sym c.had)
    ∙ ap (λ m. child_list (get (text "units") m)) (child_map-set_absent (text "systemd") ign)

-- Where kubelet has an argument to be given and the injection succeeds, a Flatcar machine's units
-- are, in this order, the units of its bootstrap data and behind them one more kubelet.service that
-- is not enabled, whether or not one of that name is there already; but the first unit of that name
-- has, behind the drop-ins that it had, the drop-in 10-caphr-args.conf, which sets
-- KUBELET_EXTRA_ARGS to the arguments, and its other keys are as they were.
pub flatcar_document-Supplied :
    (json : Json) (i : FlatcarInput) (ign : Fields) {doc : Fields}
    → is_empty (build_kubelet_extra_args i.provider_id i.internal_ip i.ipv6_net) ≡ false
    → flatcar_document json i ign ≡ ok doc
    → Supplied
        (build_kubelet_extra_args i.provider_id i.internal_ip i.ipv6_net)
        (units_of ign)
        (units_of doc)
flatcar_document-Supplied json i ign {doc} n h =
    let s = stages json i ign h in
    let extra_args = build_kubelet_extra_args i.provider_id i.internal_ip i.ipv6_net in
    let units = λ (v : Option Value). child_list (get (text "units") (child_map v)) in
    let old : units_of s.prepared ≡ units_of ign =
      ensure_units s.stored s.prepares
      ∙ ap units (
          ensure_list-rest (text "storage") (text "files") s.cleaned (text "systemd") s.stores
            storage_ne_systemd
          ∙ remove_downloads-rest (fix_inline json.print ign) (text "systemd") s.cleans
              storage_ne_systemd
          ∙ fix_inline-rest json.print ign (text "systemd") storage_ne_systemd) in
    let new : units_of s.with_args ≡ units_of doc = ap units (
      sym (
        put_key-rest i s.with_network (text "systemd") s.puts_key passwd_ne_systemd
        ∙ put_network-rest i s.with_args (text "systemd") s.puts_network storage_ne_systemd)) in
    subst₂ (Supplied extra_args) old new (put_kubelet_args-Supplied i s.prepared n s.puts_args)
