-- ===== src/Inject.antt =====
-- controllers/hetznerrobotmachine_inject.go: what is put into a Talos machineconfig.
pub mod Documents
pub mod Behind
pub mod Settings
use cluster_api_provider_het.Prelude.{
  ℕ, zero, suc, Bool, true, false, Option, none, some, List, [], ◌∷◌, ◌++◌, if◌then◌else◌, is_some,
  ◌==◌,
}
use cluster_api_provider_het.Text.{Text, text, concat, is_empty, split, trim_suffix}
use cluster_api_provider_het.Text.Decimal.{itoa}
use cluster_api_provider_het.Result.{Result, ok, err}
use cluster_api_provider_het.Api.Cluster.{VlanConfig}
use cluster_api_provider_het.Config.{
  Value, Items, Fields, bool, num, str, seq, obj, nil, item, end, field, get, set, delete,
  child_map, update_map, child_list, append_item, Codec,
}
use cluster_api_provider_het.Inject.Documents.{modify_first_document}

abbrev pub default_disk : Text
default_disk = text "/dev/nvme0n1"

unfoldable pub set_absent : Text → Value → Fields → Fields
set_absent key v m = if is_some (get key m) then m else set key v m

-- The change that injectInstallDisk makes to the first document.
unfoldable pub with_install_disk : Text → Fields → Fields
unfolding set_absent update_map
with_install_disk disk =
    update_map (text "machine") (update_map (text "install") (set_absent (text "disk") (str disk)))

unfoldable pub inject_install_disk : Codec → Text → Text → Result Text
inject_install_disk c data_in disk =
    modify_first_document c data_in
      (with_install_disk (if is_empty disk then default_disk else disk))

-- strings.Split(net, "/")[0]
unfoldable pub before_slash : Text → Text
unfolding split
before_slash net = elim (split b'/' net) [ [] ↦ [] | p ∷ ps ↦ p ]

abbrev pub mac_selector : Text → Fields
mac_selector mac =
    if is_empty mac
    then field (text "physical") (bool true) end
    else field (text "physical") (bool true) (field (text "hardwareAddr") (str mac) end)

abbrev pub one : Value → Value
one v = seq (item v nil)

-- The interface that injectIPv6Config adds.
unfoldable pub ipv6_interface : Text → Text → Value
ipv6_interface net mac = obj (
    field (text "deviceSelector") (obj (mac_selector mac)) (
      field (text "addresses") (one (str (before_slash net ++ text "1/64"))) (
        field (text "routes")
          (one (
            obj (
              field (text "network") (str (text "::/0"))
                (field (text "gateway") (str (text "fe80::1")) end))))
          end)))

unfoldable pub add_interface : Value → Fields → Fields
add_interface v network =
    set (text "interfaces") (seq (append_item (child_list (get (text "interfaces") network)) v))
      network

unfoldable pub with_ipv6 : Text → Text → Fields → Fields
unfolding update_map add_interface ipv6_interface
with_ipv6 net mac = update_map (text "machine") λ machine.
    update_map (text "sysctls") (set (text "net.ipv6.conf.all.forwarding") (str (text "1")))
      (update_map (text "network") (add_interface (ipv6_interface net mac)) machine)

unfoldable pub inject_ipv6_config : Codec → Text → Text → Text → Result Text
inject_ipv6_config c data_in net mac =
    if is_empty net then ok data_in else modify_first_document c data_in (with_ipv6 net mac)

-- The node's address in its /64 network, "" where there is no network.
unfoldable pub node_ipv6 : Text → Text
unfolding before_slash trim_suffix
node_ipv6 net =
    if is_empty net then [] else trim_suffix (before_slash net) (text "::") ++ text "::1"

-- The `switch` of injectKubeletNodeIP; "" is its default case
unfoldable pub node_ip : Text → Text → Text
node_ip internal ipv6 =
    if is_empty internal
    then ipv6
    else if is_empty ipv6
    then internal
    else concat (internal ∷ text "," ∷ ipv6 ∷ [])

-- machine.kubelet.extraArgs[key] = v
unfoldable pub with_extra_arg : Text → Text → Fields → Fields
unfolding update_map
with_extra_arg key v =
    update_map (text "machine")
      (update_map (text "kubelet") (update_map (text "extraArgs") (set key (str v))))

unfoldable pub inject_kubelet_node_ip : Codec → Text → Text → Text → Result Text
unfolding node_ip
inject_kubelet_node_ip c data_in internal net =
    let ip = node_ip internal (node_ipv6 net) in
    if is_empty ip
    then ok data_in
    else modify_first_document c data_in (with_extra_arg (text "node-ip") ip)

unfoldable pub inject_provider_id : Codec → Text → Text → Result Text
inject_provider_id c data_in id =
    if is_empty id
    then ok data_in
    else modify_first_document c data_in (with_extra_arg (text "provider-id") id)

-- delete(iface, "vlans") where the interface is a map
unfoldable pub strip_vlans : Items → Items
strip_vlans nil = nil
strip_vlans (item (obj m) l) = item (obj (delete (text "vlans") m)) (strip_vlans l)
strip_vlans (item v l) = item v (strip_vlans l)

-- A prefix length of 0 stands for 24.
abbrev pub prefix_len : VlanConfig → ℕ
prefix_len vlan = if vlan.prefix_length == 0 then 24 else vlan.prefix_length

unfoldable pub vlan_interface : VlanConfig → Text → Text → Value
vlan_interface vlan internal mac = obj (
    field (text "deviceSelector")
      (obj (field (text "physical") (bool true) (field (text "hardwareAddr") (str mac) end)))
      (field (text "vlans")
        (one (
          obj (
            field (text "vlanId") (num vlan.id) (
              field (text "addresses")
                (one (str (concat (internal ∷ text "/" ∷ itoa (prefix_len vlan) ∷ [])))) end))))
        end))

unfoldable pub with_vlan_interfaces : VlanConfig → Text → Text → Fields → Fields
unfolding strip_vlans vlan_interface
with_vlan_interfaces vlan internal mac network =
    set (text "interfaces")
      (seq (
        append_item (strip_vlans (child_list (get (text "interfaces") network)))
          (vlan_interface vlan internal mac)))
      network

unfoldable pub with_vlan : VlanConfig → Text → Text → Fields → Fields
unfolding update_map with_vlan_interfaces
with_vlan vlan internal mac =
    update_map (text "machine")
      (update_map (text "network") (with_vlan_interfaces vlan internal mac))

unfoldable pub inject_vlan_config : Codec → Text → Option VlanConfig → Text → Text → Result Text
inject_vlan_config c data_in none internal mac = ok data_in
inject_vlan_config c data_in (some vlan) internal mac =
    if is_empty internal
    then ok data_in
    else if is_empty mac
    then err (text "primaryMAC required for VLAN injection — detected during rescue")
    else modify_first_document c data_in (with_vlan vlan internal mac)
