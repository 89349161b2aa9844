-- ===== src/Ignition/Sources.antt =====
-- The sources and the inline contents of the files in a changed document.
use mathlib.Core.Path.{subst}
use cluster_api_provider_het.Prelude.{ℕ, ◌≡◌, ◌||◌, Bool-cases, inl, inr}
use cluster_api_provider_het.Text.{Text, text, is_empty}
use cluster_api_provider_het.Result.{Result, ok, Result_value}
use cluster_api_provider_het.Config.{Fields, seq, obj, nil, end, get}
use cluster_api_provider_het.Config.Paths.{get-set_self}
use cluster_api_provider_het.Inject.{set_absent}
use cluster_api_provider_het.Ignition.Keys.{systemd_ne_storage, passwd_ne_storage}
use cluster_api_provider_het.Ignition.Document.{change_map}
use cluster_api_provider_het.Ignition.Document.Changes.{
  change_map-Changed, change_list-ok, child_map-set_absent, child_list-set_absent,
}
use cluster_api_provider_het.Ignition.Files.{add_file, local_file}
use cluster_api_provider_het.Ignition.Files.Sources.{
  IsNoHttp, AllMaps, append-AllMaps, local_file-IsNoHttp,
}
use cluster_api_provider_het.Ignition.Files.Cleaned.{
  files_in, HasNoHttpFiles, fix_inline-IsSourced, remove_downloads-local,
}
use cluster_api_provider_het.Ignition.Stages.{
  stages, ensure_list-rest, put_kubelet_args-rest, put_key-rest,
}
use cluster_api_provider_het.Ignition.Network.{add_primary_network}
use cluster_api_provider_het.Ignition.{
  FlatcarInput, Json, ensure_list, put_network, flatcar_document,
}

-- A document with the same storage has the same files.
same_storage :
    (ign doc : Fields)
    → get (text "storage") doc ≡ get (text "storage") ign
    → HasNoHttpFiles ign
    → HasNoHttpFiles doc
same_storage ign doc e a = rw e a

-- A change of the storage that keeps its files without such sources.
change_storage :
    (f : Fields → Result Fields) (ign : Fields) {doc : Fields}
    → change_map (text "storage") f ign ≡ ok doc
    → ((s t : Fields) → f s ≡ ok t → AllMaps IsNoHttp (files_in s) → AllMaps IsNoHttp (files_in t))
    → HasNoHttpFiles ign
    → HasNoHttpFiles doc
change_storage f ign h keep a =
    let c = change_map-Changed (text "storage") f ign h in
    rw c.has (keep c.before c.after c.made (rw c.had at a))

ensure_files :
    (ign : Fields) {doc : Fields}
    → ensure_list (text "storage") (text "files") ign ≡ ok doc
    → HasNoHttpFiles ign
    → HasNoHttpFiles doc
unfolding ensure_list
ensure_files ign h a =
    change_storage (λ m. ok (set_absent (text "files") (seq nil) m))
      (set_absent (text "storage") (obj end) ign) h
      (λ s t e b.
        subst (λ x. AllMaps IsNoHttp (files_in x)) {x = set_absent (text "files") (seq nil) s}
          (Result_value e) (rw child_list-set_absent b))
      (rw child_map-set_absent a)

add_file-IsNoHttp :
    (path content : Text) (mode : ℕ) (s t : Fields)
    → add_file path content mode s ≡ ok t
    → AllMaps IsNoHttp (files_in s)
    → AllMaps IsNoHttp (files_in t)
unfolding add_file
add_file-IsNoHttp path content mode s t h a =
    let (l, e, g) = change_list-ok (text "files") _ s h in
    rw (g, get-set_self)
      (append-AllMaps IsNoHttp l (local_file path content mode) (rw e at a)
        (local_file-IsNoHttp path content mode))

network_files :
    (i : FlatcarInput) (ign : Fields) {doc : Fields}
    → put_network i ign ≡ ok doc
    → HasNoHttpFiles ign
    → HasNoHttpFiles doc
unfolding put_network
network_files i ign h a = elim (Bool-cases (is_empty i.server_ip || is_empty i.gateway_ip)) [
  | inl skip ↦ subst HasNoHttpFiles (Result_value (rw skip at h)) a
  | inr go ↦
      change_storage _ ign (rw go at h) (unfold add_primary_network in add_file-IsNoHttp _ _ 420) a
]

-- No file of an Ignition that was made, where it is a map, has an http or https source or an inline
-- content alone.
pub flatcar_document-HasNoHttpFiles :
    (json : Json) (i : FlatcarInput) (ign : Fields) {doc : Fields}
    → flatcar_document json i ign ≡ ok doc
    → HasNoHttpFiles doc
flatcar_document-HasNoHttpFiles json i ign {doc} h =
    let s = stages json i ign h in
    let cleaned = remove_downloads-local _ s.cleans (fix_inline-IsSourced json.print ign) in
    let prepared =
      same_storage s.stored s.prepared
        (ensure_list-rest (text "systemd") (text "units") s.stored (text "storage") s.prepares
          systemd_ne_storage)
        (ensure_files s.cleaned s.stores cleaned) in
    let with_args =
      same_storage s.prepared s.with_args
        (put_kubelet_args-rest i s.prepared (text "storage") s.puts_args systemd_ne_storage)
        prepared in
    same_storage s.with_network doc
      (put_key-rest i s.with_network (text "storage") s.puts_key passwd_ne_storage)
      (network_files i s.with_args s.puts_network with_args)
