-- ===== src/Ignition/Units.antt =====
-- addIgnitionUnit, addKubeletDropin and the arguments of kubelet.
use cluster_api_provider_het.Prelude.{Bool, List, [], ◌∷◌, ◌++◌, if◌then◌else◌}
use cluster_api_provider_het.Text.{Text, text, concat, is_empty, split, trim_suffix, join}
use cluster_api_provider_het.Result.{Result}
use cluster_api_provider_het.Config.{
  Value, Items, Fields, bool, str, seq, obj, nil, item, end, field, get, set, child_list,
  append_item,
}
use cluster_api_provider_het.Ignition.Document.{is_text, change_list}

-- The unit that addIgnitionUnit makes.
abbrev pub new_unit : Text → Bool → Text → Fields
new_unit name enabled contents = field (text "name") (str name) (
    field (text "enabled") (bool enabled)
      (if is_empty contents then end else field (text "contents") (str contents) end))

-- addIgnitionUnit
unfoldable pub add_unit : Text → Bool → Text → Fields → Result Fields
unfolding change_list
add_unit name enabled contents =
    change_list (text "units") (λ units. append_item units (obj (new_unit name enabled contents)))

abbrev pub kubelet_service : Text
kubelet_service = text "kubelet.service"

abbrev pub kubelet_dropin : Text → Value
kubelet_dropin extra_args = obj (
    field (text "name") (str (text "10-caphr-args.conf")) (
      field (text "contents")
        (str (
          concat
            (text "[Service]\nEnvironment=\"KUBELET_EXTRA_ARGS=" ∷ extra_args ∷ text "\"\n" ∷ [])))
        end))

abbrev pub with_dropin : Value → Fields → Fields
with_dropin dropin unit =
    set (text "dropins") (seq (append_item (child_list (get (text "dropins") unit)) dropin)) unit

-- The loop, which ends at the first entry of kubelet.service.
unfoldable pub add_dropin : Value → Items → Items
add_dropin dropin nil = nil
add_dropin dropin (item (obj unit) l) =
    let rest = add_dropin dropin l in
    if is_text kubelet_service (get (text "name") unit)
    then item (obj (with_dropin dropin unit)) l
    else item (obj unit) rest
add_dropin dropin (item v l) = item v (add_dropin dropin l)

-- addKubeletDropin
unfoldable pub add_kubelet_dropin : Text → Fields → Result Fields
unfolding change_list add_dropin
add_kubelet_dropin extra_args = change_list (text "units") (add_dropin (kubelet_dropin extra_args))

-- The node's IPv6 address, "" without a network.
unfoldable pub node_ipv6 : Text → Text
unfolding split trim_suffix
node_ipv6 net =
    if is_empty net
    then []
    else trim_suffix (elim (split b'/' net) [ [] ↦ [] | p ∷ ps ↦ p ]) (text "::") ++ text "::1"

abbrev chosen_ip : Text → Text → Text
chosen_ip internal ipv6 =
    if is_empty internal
    then ipv6
    else if is_empty ipv6
    then internal
    else internal ++ (text "," ++ ipv6)

-- `fmt.Sprintf("--<name>=%s", value)`, where there is a value
abbrev argument : Text → Text → List Text
argument name value = if is_empty value then [] else (name ++ value) ∷ []

unfoldable pub build_kubelet_extra_args : Text → Text → Text → Text
unfolding node_ipv6 join
build_kubelet_extra_args provider_id internal net = join (text " ") (
    argument (text "--provider-id=") provider_id
    ++ argument (text "--node-ip=") (chosen_ip internal (node_ipv6 net)))
