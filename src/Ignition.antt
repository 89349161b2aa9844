-- ===== src/Ignition.antt =====
-- controllers/hetznerrobotmachine_ignition.go: what is put into the Ignition of a Flatcar machine.
-- The document is a map as encoding/json decodes it; a panic is an error with its message.
pub mod Encode
pub mod Document
pub mod Files
pub mod Units
pub mod Users
pub mod Network
pub mod PreBoot
pub mod Keys
pub mod Stages
pub mod Kinds
pub mod Sources
pub mod Access
pub mod Kubelet
pub mod Total
use cluster_api_provider_het.Prelude.{Bool, false, ◌||◌, Option, none, some, [], ◌∷◌, if◌then◌else◌}
use cluster_api_provider_het.Text.{Text, text, concat, is_empty}
use cluster_api_provider_het.Result.{Result, ok, err, map_err, and_then}
use cluster_api_provider_het.Api.Cluster.{VlanConfig}
use cluster_api_provider_het.Config.{Value, Fields, Codec, seq, obj, nil, end}
use cluster_api_provider_het.Inject.{set_absent}
use cluster_api_provider_het.Ignition.Document.{change_map}
use cluster_api_provider_het.Ignition.Files.{fix_inline, remove_downloads}
use cluster_api_provider_het.Ignition.Units.{
  kubelet_service, add_unit, add_kubelet_dropin, build_kubelet_extra_args,
}
use cluster_api_provider_het.Ignition.Users.{add_authorized_key}
use cluster_api_provider_het.Ignition.Network.{add_primary_network}

-- What injectFlatcarConfig is given.
pub record FlatcarInput : Type 0 where
  pub bootstrap_data : Text
  pub provider_id : Text
  pub internal_ip : Text
  pub ipv6_net : Text
  pub primary_mac : Text
  pub vlan_config : Option VlanConfig
  pub ssh_public_key : Text
  pub server_ip : Text
  pub gateway_ip : Text

-- encoding/json on documents, and fmt's %v of a value that is no string.
pub record Json : Type 0 where
  pub codec : Codec
  pub print : Value → Text

-- A map at the key, with a list in it, where there is none.
unfoldable pub ensure_list : Text → Text → Fields → Result Fields
unfolding set_absent change_map
ensure_list key inner ign =
    change_map key (λ m. ok (set_absent inner (seq nil) m)) (set_absent key (obj end) ign)

-- 1. The arguments of kubelet.
unfoldable pub put_kubelet_args : FlatcarInput → Fields → Result Fields
unfolding change_map
put_kubelet_args i ign =
    let extra_args = build_kubelet_extra_args i.provider_id i.internal_ip i.ipv6_net in
    if is_empty extra_args
    then ok ign
    else change_map (text "systemd")
        (λ systemd.
          and_then (add_unit kubelet_service false [] systemd) (add_kubelet_dropin extra_args))
        ign

-- 4. The file of the primary network, without the VLAN.
unfoldable pub put_network : FlatcarInput → Fields → Result Fields
unfolding change_map
put_network i ign =
    if is_empty i.server_ip || is_empty i.gateway_ip
    then ok ign
    else change_map (text "storage")
        (add_primary_network i.primary_mac i.server_ip i.gateway_ip i.ipv6_net none) ign

-- 5. The key of the user core.
unfoldable pub put_key : FlatcarInput → Fields → Result Fields
put_key i ign =
    if is_empty i.ssh_public_key
    then ok ign
    else add_authorized_key (text "core") i.ssh_public_key ign

-- The changes of the document, in their order.
unfoldable pub flatcar_document : Json → FlatcarInput → Fields → Result Fields
unfolding ensure_list put_kubelet_args put_network put_key
flatcar_document json i ign = and_then (remove_downloads (fix_inline json.print ign)) λ cleaned.
    and_then (ensure_list (text "storage") (text "files") cleaned) λ stored.
      and_then (ensure_list (text "systemd") (text "units") stored) λ ready.
        and_then (put_kubelet_args i ready)
          λ with_args. and_then (put_network i with_args) (put_key i)

-- The document behind json.Unmarshal; a change of the nil map is Go's panic.
unfoldable pub change_document : Json → FlatcarInput → Option Fields → Result Fields
unfolding flatcar_document
change_document json i none = err (text "panic: assignment to entry in nil map")
change_document json i (some ign) = flatcar_document json i ign

abbrev failing : Text → Text → Text
failing what e = concat (what ∷ text ": " ∷ e ∷ [])

-- injectFlatcarConfig
unfoldable pub inject_flatcar_config : Json → FlatcarInput → Result Text
unfolding change_document
inject_flatcar_config json i =
    and_then
      (map_err (failing (text "parse Ignition JSON")) (json.codec.unmarshal i.bootstrap_data))
      λ ign.
        and_then (change_document json i ign)
          λ changed. map_err (failing (text "marshal Ignition JSON")) (json.codec.marshal changed)
