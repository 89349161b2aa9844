-- ===== src/Ignition/Network.antt =====
-- The files of systemd-networkd: addHetznerPrimaryNetwork, addVLANNetdevAndNetwork and
-- addNetworkdIPv6File.
use cluster_api_provider_het.Prelude.{ℕ, Option, none, some, [], ◌∷◌, ◌++◌, if◌then◌else◌}
use cluster_api_provider_het.Text.{Text, text, concat, is_empty, split, trim_suffix}
use cluster_api_provider_het.Text.Decimal.{itoa}
use cluster_api_provider_het.Result.{Result, and_then}
use cluster_api_provider_het.Api.Cluster.{VlanConfig}
use cluster_api_provider_het.Config.{Fields}
use cluster_api_provider_het.Ignition.Files.{add_file}

-- The machine's address in its network of 64 bits.
unfoldable pub ipv6_address : Text → Text
unfolding split trim_suffix
ipv6_address net =
    trim_suffix (elim (split b'/' net) [ [] ↦ [] | p ∷ ps ↦ p ]) (text "::") ++ text "::1/64"

abbrev vlan_line : Option VlanConfig → Text
vlan_line none = []
vlan_line (some vlan) = concat (text "VLAN=vlan" ∷ itoa vlan.id ∷ text "\n" ∷ [])

abbrev ipv6_sections : Text → Text
ipv6_sections net =
    if is_empty net
    then []
    else concat (
        text "\n[Address]\nAddress="
        ∷ ipv6_address net
        ∷ text "\n"
        ∷ text "\n[Route]\nDestination=::/0\nGateway=fe80::1\n"
        ∷ [])

-- The text that addHetznerPrimaryNetwork builds.
unfoldable pub primary_network : Text → Text → Text → Text → Option VlanConfig → Text
unfolding ipv6_address
primary_network mac ip gateway net vlan = concat (
    text "[Match]\nMACAddress="
    ∷ mac
    ∷ text "\n"
    ∷ text "\n[Network]\nDNS=185.12.64.1\nDNS=185.12.64.2\n"
    ∷ vlan_line vlan
    ∷ text "\n[Address]\nAddress="
    ∷ ip
    ∷ text "/32\nPeer="
    ∷ gateway
    ∷ text "/32\n"
    ∷ text "\n[Route]\nDestination=0.0.0.0/0\nGateway="
    ∷ gateway
    ∷ text "\n"
    ∷ ipv6_sections net
    ∷ [])

-- addHetznerPrimaryNetwork
unfoldable pub add_primary_network :
    Text → Text → Text → Text → Option VlanConfig → Fields → Result Fields
unfolding primary_network
add_primary_network mac ip gateway net vlan =
    add_file (text "/etc/systemd/network/10-public.network")
      (primary_network mac ip gateway net vlan) 420

unfoldable pub vlan_netdev : ℕ → Text
vlan_netdev id = concat (
    text "[NetDev]\nName=vlan"
    ∷ itoa id
    ∷ text "\nKind=vlan\n\n[VLAN]\nId="
    ∷ itoa id
    ∷ text "\n"
    ∷ [])

unfoldable pub vlan_network : ℕ → Text → ℕ → Text
vlan_network id internal prefix = concat (
    text "[Match]\nName=vlan"
    ∷ itoa id
    ∷ text "\n\n[Network]\nAddress="
    ∷ internal
    ∷ text "/"
    ∷ itoa prefix
    ∷ text "\n"
    ∷ [])

abbrev vlan_path : ℕ → Text → Text
vlan_path id ending = concat (text "/etc/systemd/network/10-vlan" ∷ itoa id ∷ ending ∷ [])

-- addVLANNetdevAndNetwork; nothing calls it
unfoldable pub add_vlan_files : ℕ → Text → ℕ → Fields → Result Fields
unfolding vlan_netdev vlan_network
add_vlan_files id internal prefix storage =
    and_then (add_file (vlan_path id (text ".netdev")) (vlan_netdev id) 420 storage)
      (add_file (vlan_path id (text ".network")) (vlan_network id internal prefix) 420)

-- addNetworkdIPv6File; nothing calls it
unfoldable pub add_ipv6_file : Text → Text → Fields → Result Fields
add_ipv6_file address mac =
    add_file (text "/etc/systemd/network/10-ipv6.network")
      (concat (
        text "[Match]\nMACAddress="
        ∷ mac
        ∷ text "\n\n[Network]\nAddress="
        ∷ address
        ∷ text "\n\n[Route]\nDestination=::/0\nGateway=fe80::1\n"
        ∷ []))
      420
