-- ===== src/Ignition/Stages.antt =====
-- The steps of injectFlatcarConfig, and the parts of the document that each leaves alone.
use cluster_api_provider_het.Prelude.{◌≡◌, sym, ap, false, ◌||◌, Bool-cases, inl, inr}
use cluster_api_provider_het.Text.{Text, text, text_eq, is_empty}
use cluster_api_provider_het.Result.{ok, Result_value, and_then-eq-ok}
use cluster_api_provider_het.Config.{Fields, get, seq, nil}
use cluster_api_provider_het.Inject.{set_absent}
use cluster_api_provider_het.Ignition.Document.Changes.{change_map-Changed, ensure_change-rest}
use cluster_api_provider_het.Ignition.Files.{fix_inline, remove_downloads}
use cluster_api_provider_het.Ignition.Units.{build_kubelet_extra_args}
use cluster_api_provider_het.Ignition.Users.{add_authorized_key}
use cluster_api_provider_het.Ignition.{
  FlatcarInput, Json, ensure_list, put_kubelet_args, put_network, put_key, flatcar_document,
}

-- The documents between the steps, where all succeed.
pub record Stages (json : Json) (i : FlatcarInput) (ign doc : Fields) : Type 0 where
  pub cleaned : Fields
  pub stored : Fields
  pub prepared : Fields
  pub with_args : Fields
  pub with_network : Fields
  pub cleans : remove_downloads (fix_inline json.print ign) ≡ ok cleaned
  pub stores : ensure_list (text "storage") (text "files") cleaned ≡ ok stored
  pub prepares : ensure_list (text "systemd") (text "units") stored ≡ ok prepared
  pub puts_args : put_kubelet_args i prepared ≡ ok with_args
  pub puts_network : put_network i with_args ≡ ok with_network
  pub puts_key : put_key i with_network ≡ ok doc

pub stages :
    (json : Json) (i : FlatcarInput) (ign : Fields) {doc : Fields}
    → flatcar_document json i ign ≡ ok doc
    → Stages json i ign doc
unfolding flatcar_document
stages json i ign h =
    let (cleaned, e1, g1) = and_then-eq-ok (remove_downloads (fix_inline json.print ign)) _ h in
    let (stored, e2, g2) =
      and_then-eq-ok (ensure_list (text "storage") (text "files") cleaned) _ g1 in
    let (prepared, e3, g3) =
      and_then-eq-ok (ensure_list (text "systemd") (text "units") stored) _ g2 in
    let (with_args, e4, g4) = and_then-eq-ok (put_kubelet_args i prepared) _ g3 in
    let (with_network, e5, g5) = and_then-eq-ok (put_network i with_args) _ g4 in
    record {
      cleaned = cleaned;
      stored = stored;
      prepared = prepared;
      with_args = with_args;
      with_network = with_network;
      cleans = e1;
      stores = e2;
      prepares = e3;
      puts_args = e4;
      puts_network = e5;
      puts_key = g5;
    }

pub ensure_list-rest :
    (key inner : Text) (ign : Fields) {doc : Fields} (j : Text)
    → ensure_list key inner ign ≡ ok doc
    → text_eq key j ≡ false
    → get j doc ≡ get j ign
unfolding ensure_list
ensure_list-rest key inner ign j h n =
    ensure_change-rest key (λ m. ok (set_absent inner (seq nil) m)) ign j h n

pub put_kubelet_args-rest :
    (i : FlatcarInput) (ign : Fields) {doc : Fields} (j : Text)
    → put_kubelet_args i ign ≡ ok doc
    → text_eq (text "systemd") j ≡ false
    → get j doc ≡ get j ign
unfolding put_kubelet_args
put_kubelet_args-rest i ign j h n =
    elim (Bool-cases (is_empty (build_kubelet_extra_args i.provider_id i.internal_ip i.ipv6_net))) [
      | inl skip ↦ ap (get j) (sym (Result_value (rw skip at h)))
      | inr go ↦ (change_map-Changed (text "systemd") _ ign (rw go at h)).rest j n
    ]

pub put_network-rest :
    (i : FlatcarInput) (ign : Fields) {doc : Fields} (j : Text)
    → put_network i ign ≡ ok doc
    → text_eq (text "storage") j ≡ false
    → get j doc ≡ get j ign
unfolding put_network
put_network-rest i ign j h n = elim (Bool-cases (is_empty i.server_ip || is_empty i.gateway_ip)) [
  | inl skip ↦ ap (get j) (sym (Result_value (rw skip at h)))
  | inr go ↦ (change_map-Changed (text "storage") _ ign (rw go at h)).rest j n
]

pub put_key-rest :
    (i : FlatcarInput) (ign : Fields) {doc : Fields} (j : Text)
    → put_key i ign ≡ ok doc
    → text_eq (text "passwd") j ≡ false
    → get j doc ≡ get j ign
unfolding put_key add_authorized_key
put_key-rest i ign j h n = elim (Bool-cases (is_empty i.ssh_public_key)) [
  | inl skip ↦ ap (get j) (sym (Result_value (rw skip at h)))
  | inr go ↦ ensure_change-rest (text "passwd") _ ign j (rw go at h) n
]
