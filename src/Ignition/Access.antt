-- ===== src/Ignition/Access.antt =====
-- The authorised keys of the users in a changed document.
use cluster_api_provider_het.Prelude.{
  ◌≡◌, refl, ap, ◌∙◌, not, ◌&&◌, ◌||◌, arith, Bool-cases, inl, inr,
}
use cluster_api_provider_het.Text.{Text, text, text_eq, is_empty}
use cluster_api_provider_het.Result.{ok, Result_value}
use cluster_api_provider_het.Config.{Items, Fields, seq, obj, nil, end, get, child_map, child_list}
use cluster_api_provider_het.Config.Paths.{get-set_self}
use cluster_api_provider_het.Inject.{set_absent}
use cluster_api_provider_het.Ignition.Keys.{systemd_ne_passwd, storage_ne_passwd}
use cluster_api_provider_het.Ignition.Document.Changes.{
  change_map-Changed, change_list-ok, child_map-set_absent, child_list-set_absent,
}
use cluster_api_provider_het.Ignition.Files.{fix_inline}
use cluster_api_provider_het.Ignition.Files.Cleaned.{fix_inline-rest, remove_downloads-rest}
use cluster_api_provider_het.Ignition.Users.{authorize, authorize_passwd, add_authorized_key}
use cluster_api_provider_het.Ignition.Users.Exact.{is_authorized, is_authorized-authorize}
use cluster_api_provider_het.Ignition.Stages.{
  Stages, stages, ensure_list-rest, put_kubelet_args-rest, put_network-rest,
}
use cluster_api_provider_het.Ignition.{FlatcarInput, Json, put_key, flatcar_document}

abbrev users_in : Fields → Items
users_in passwd = child_list (get (text "users") passwd)

-- The users of a document.
abbrev pub users_of : Fields → Items
users_of ign = users_in (child_map (get (text "passwd") ign))

authorize_passwd-users :
    (u k : Text) (passwd : Fields) {p : Fields}
    → authorize_passwd u k passwd ≡ ok p
    → users_in p ≡ authorize u k (users_in passwd)
unfolding authorize_passwd
authorize_passwd-users u k passwd h =
    let (l, e, g) = change_list-ok (text "users") (authorize u k) _ h in
    let same : users_in (set_absent (text "users") (seq nil) passwd) ≡ l = rw e refl in
    rw (g, get-set_self, ← same, child_list-set_absent)

add_authorized_key-users :
    (u k : Text) (ign : Fields) {doc : Fields}
    → add_authorized_key u k ign ≡ ok doc
    → users_of doc ≡ authorize u k (users_of ign)
unfolding add_authorized_key
add_authorized_key-users u k ign h =
    let c = change_map-Changed (text "passwd") (authorize_passwd u k) _ h in
    let same : child_map (get (text "passwd") (set_absent (text "passwd") (obj end) ign))
        ≡ c.before =
      rw c.had refl in
    rw (c.has, authorize_passwd-users u k c.before c.made, ← same, child_map-set_absent)

-- The steps before the last leave the users alone.
passwd_kept :
    (json : Json) (i : FlatcarInput) (ign doc : Fields) (s : Stages json i ign doc)
    → get (text "passwd") s.with_network ≡ get (text "passwd") ign
passwd_kept json i ign doc s =
    put_network-rest i s.with_args (text "passwd") s.puts_network storage_ne_passwd
    ∙ put_kubelet_args-rest i s.prepared (text "passwd") s.puts_args systemd_ne_passwd
    ∙ ensure_list-rest (text "systemd") (text "units") s.stored (text "passwd") s.prepares
        systemd_ne_passwd
    ∙ ensure_list-rest (text "storage") (text "files") s.cleaned (text "passwd") s.stores
        storage_ne_passwd
    ∙ remove_downloads-rest (fix_inline json.print ign) (text "passwd") s.cleans storage_ne_passwd
    ∙ fix_inline-rest json.print ign (text "passwd") storage_ne_passwd

put_key-authorizes :
    (i : FlatcarInput) (ign : Fields) {doc : Fields} (u k : Text)
    → put_key i ign ≡ ok doc
    → is_authorized u k (users_of doc) ≡ (
        is_authorized u k (users_of ign)
        || (not (is_empty i.ssh_public_key)
            && (text_eq (text "core") u && text_eq i.ssh_public_key k)))
unfolding put_key
put_key-authorizes i ign u k h = elim (Bool-cases (is_empty i.ssh_public_key)) [
  | inl skip ↦ let same = Result_value (rw skip at h) in rw (skip, ← same) (ground arith)
  | inr go ↦
      rw (go, add_authorized_key-users (text "core") i.ssh_public_key ign (rw go at h))
        (is_authorized-authorize (text "core") i.ssh_public_key u k (users_of ign))
]

-- Where the injection succeeds, the first entry of a user in a Flatcar machine's Ignition authorises
-- a key exactly where the first entry in the bootstrap data did so, or where the user is core and the
-- key is the controller's own, which is not empty.
pub flatcar_document-authorizes :
    (json : Json) (i : FlatcarInput) (ign : Fields) {doc : Fields} (u k : Text)
    → flatcar_document json i ign ≡ ok doc
    → is_authorized u k (users_of doc) ≡ (
        is_authorized u k (users_of ign)
        || (not (is_empty i.ssh_public_key)
            && (text_eq (text "core") u && text_eq i.ssh_public_key k)))
flatcar_document-authorizes json i ign {doc} u k h =
    let s = stages json i ign h in
    let kept : users_of s.with_network ≡ users_of ign =
      ap (λ v. users_in (child_map v)) (passwd_kept json i ign doc s) in
    rw (← kept) (put_key-authorizes i s.with_network u k s.puts_key)
