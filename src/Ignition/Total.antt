-- ===== src/Ignition/Total.antt =====
-- injectFlatcarConfig on documents of the kinds that Ignition documents.
use mathlib.Core.Path.{subst}
use cluster_api_provider_het.Prelude.{◌≡◌, inl, inr, refl, sym, ◌∙◌, false, ◌||◌, [], Bool-cases}
use cluster_api_provider_het.Text.{Text, text, text_eq, is_empty}
use cluster_api_provider_het.Result.{ok}
use cluster_api_provider_het.Config.{Fields, seq, obj, nil, end, get}
use cluster_api_provider_het.Config.Paths.{get-set_self}
use cluster_api_provider_het.Ignition.Files.{fix_inline, add_file}
use cluster_api_provider_het.Ignition.Files.Sources.{AllMaps}
use cluster_api_provider_het.Ignition.Files.Cleaned.{
  remove_downloads-rest, fix_inline-rest, files_of, HasNoHttpFiles,
}
use cluster_api_provider_het.Ignition.Units.{
  kubelet_service, add_unit, add_kubelet_dropin, build_kubelet_extra_args,
}
use cluster_api_provider_het.Ignition.Users.{authorize, authorize_passwd, add_authorized_key}
use cluster_api_provider_het.Ignition.Network.{add_primary_network}
use cluster_api_provider_het.Ignition.Stages.{
  ensure_list-rest, put_kubelet_args-rest, put_network-rest,
}
use cluster_api_provider_het.Ignition.Sources.{flatcar_document-HasNoHttpFiles}
use cluster_api_provider_het.Ignition.{
  FlatcarInput, Json, put_kubelet_args, put_network, put_key, flatcar_document,
}
use cluster_api_provider_het.Ignition.Kinds.{
  MayBeList, MayHold, Holds, HasPath, some_map, some_list, get-set_absent_self, change_map-made,
  change_list-made, and_then-made, ensure_list-made,
}
use cluster_api_provider_het.Ignition.Kinds.Storage.{fix_inline-FitsStorage, remove_downloads-made}
use cluster_api_provider_het.Ignition.Keys.{
  storage_ne_systemd, systemd_ne_storage, storage_ne_passwd, systemd_ne_passwd,
}

put_kubelet_args-made :
    (i : FlatcarInput) (ign : Fields)
    → Holds (text "units") (get (text "systemd") ign)
    → (doc : Fields) × (put_kubelet_args i ign ≡ ok doc)
unfolding put_kubelet_args add_unit add_kubelet_dropin
put_kubelet_args-made i ign (m, l, there, here) =
    let extra_args = build_kubelet_extra_args i.provider_id i.internal_ip i.ipv6_net in
    elim (Bool-cases (is_empty extra_args)) [
      | inl skip ↦ rw skip (ign, refl)
      | inr go ↦
          let added = change_list-made (text "units") _ m here in
          let dropped = change_list-made (text "units") _ _ (get-set_self (text "units") _ m) in
          rw go (
            _,
            change_map-made (text "systemd") _ ign there (
                and_then-made (add_unit kubelet_service false [] m) (add_kubelet_dropin extra_args)
                  added dropped),
          )
    ]

put_network-made :
    (i : FlatcarInput) (ign : Fields)
    → Holds (text "files") (get (text "storage") ign)
    → (doc : Fields) × (put_network i ign ≡ ok doc)
unfolding put_network add_primary_network add_file
put_network-made i ign (m, l, there, here) =
    elim (Bool-cases (is_empty i.server_ip || is_empty i.gateway_ip)) [
      | inl skip ↦ rw skip (ign, refl)
      | inr go ↦ rw go (
        _,
        change_map-made (text "storage") _ ign there (change_list-made (text "files") _ m here),
      )
    ]

put_key-made :
    (i : FlatcarInput) (ign : Fields)
    → MayHold (text "users") (get (text "passwd") ign)
    → (doc : Fields) × (put_key i ign ≡ ok doc)
unfolding put_key add_authorized_key authorize_passwd
put_key-made i ign (a, b) = elim (Bool-cases (is_empty i.ssh_public_key)) [
  | inl skip ↦ rw skip (ign, refl)
  | inr go ↦
      let (m, e, same) = some_map (get (text "passwd") ign) a in
      let (l, g) =
        some_list (get (text "users") m) (subst (λ c. MayBeList (get (text "users") c)) same b) in
      rw go (
        _,
        (change_map-made (text "passwd") (authorize_passwd (text "core") i.ssh_public_key) _
            (get-set_absent_self (text "passwd") (obj end) ign ∙ e)
            (change_list-made (text "users") (authorize (text "core") i.ssh_public_key) _
              (get-set_absent_self (text "users") (seq nil) m ∙ g))),
      )
]

-- A document of the kinds that Ignition documents: the parts that are changed are maps and lists where
-- they are there, and the files name their paths.
pub record IsIgnition (ign : Fields) : Type 0 where
  pub storage : MayHold (text "files") (get (text "storage") ign)
  pub paths : AllMaps HasPath (files_of ign)
  pub systemd : MayHold (text "units") (get (text "systemd") ign)
  pub passwd : MayHold (text "users") (get (text "passwd") ign)

flatcar_document_made :
    (json : Json) (i : FlatcarInput) (ign : Fields)
    → IsIgnition ign
    → (doc : Fields) × (flatcar_document json i ign ≡ ok doc)
unfolding flatcar_document
flatcar_document_made json i ign w =
    let fixed = fix_inline json.print ign in
    let (cleaned, e1, stored_kind) =
      remove_downloads-made fixed (fix_inline-FitsStorage json.print ign (w.storage, w.paths)) in
    let cleaned_rest = λ (j : Text) (n : text_eq (text "storage") j ≡ false).
      remove_downloads-rest fixed j e1 n ∙ fix_inline-rest json.print ign j n in
    let (stored, e2, files) =
      ensure_list-made (text "storage") (text "files") cleaned stored_kind in
    let stored_rest = λ (j : Text) (n : text_eq (text "storage") j ≡ false).
      ensure_list-rest (text "storage") (text "files") cleaned j e2 n ∙ cleaned_rest j n in
    let (prepared, e3, units) = ensure_list-made (text "systemd") (text "units") stored (
      subst (MayHold (text "units")) (sym (stored_rest (text "systemd") storage_ne_systemd))
        w.systemd) in
    let prepared_rest = λ (j : Text) (n : text_eq (text "systemd") j ≡ false).
      ensure_list-rest (text "systemd") (text "units") stored j e3 n in
    let (with_args, e4) = put_kubelet_args-made i prepared units in
    let args_rest = λ (j : Text) (n : text_eq (text "systemd") j ≡ false).
      put_kubelet_args-rest i prepared j e4 n ∙ prepared_rest j n in
    let (with_network, e5) =
      put_network-made i with_args (
        subst (Holds (text "files")) (sym (args_rest (text "storage") systemd_ne_storage)) files) in
    let passwd =
      put_network-rest i with_args (text "passwd") e5 storage_ne_passwd
      ∙ args_rest (text "passwd") systemd_ne_passwd
      ∙ stored_rest (text "passwd") storage_ne_passwd in
    let (doc, e6) =
      put_key-made i with_network (subst (MayHold (text "users")) (sym passwd) w.passwd) in
    (doc, rw (e1, e2, e3, e4, e5) e6)

-- On a document of the kinds that Ignition documents, the injection succeeds, and in the Ignition
-- that it gives no file that is a map has an http:// or https:// source, and none has an inline content
-- without a source, which Ignition 3.3 does not read. Sources of other schemes are not excluded.
pub IsIgnition-HasNoHttpFiles :
    (json : Json) (i : FlatcarInput) (ign : Fields)
    → IsIgnition ign
    → (doc : Fields) × (flatcar_document json i ign ≡ ok doc) × HasNoHttpFiles doc
IsIgnition-HasNoHttpFiles json i ign w =
    let (doc, e) = flatcar_document_made json i ign w in
    (doc, e, flatcar_document-HasNoHttpFiles json i ign e)
