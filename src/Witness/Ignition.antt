-- ===== src/Witness/Ignition.antt =====
-- Ignitions of concrete Flatcar machines.
use cluster_api_provider_het.Prelude.{
  inl, inr, ◌≡◌, refl, false, not, ◌&&◌, ◌||◌, none, some, [], arith,
}
use cluster_api_provider_het.Text.{
  text, text_eq, is_empty, split, trim_suffix, join, has_prefix, concat,
}
use cluster_api_provider_het.Result.{Result, ok, err}
use cluster_api_provider_het.Config.{
  Fields, str, seq, obj, nil, item, end, field, get, set, delete, append_item,
}
use cluster_api_provider_het.Inject.{set_absent}
use cluster_api_provider_het.Ignition.Encode.{is_plain, hex_digit, url_encode}
use cluster_api_provider_het.Ignition.Encode.Decoded.{
  whole, percent_decode, percent_decode-url_encode,
}
use cluster_api_provider_het.Ignition.Document.{
  change_map, change_list, need_map, need_list, need_text,
}
use cluster_api_provider_het.Ignition.Files.{
  fix_inline, fix_files, fix_file, fix_contents, remove_downloads, is_remote, split_files,
  without_links, without_downloads, keep_links, add_file,
}
use cluster_api_provider_het.Ignition.Files.Cleaned.{HasNoHttpFiles}
use cluster_api_provider_het.Ignition.Units.{
  add_unit, add_dropin, add_kubelet_dropin, node_ipv6, build_kubelet_extra_args,
}
use cluster_api_provider_het.Ignition.Users.{
  has_text, with_key, authorize, authorize_passwd, add_authorized_key,
}
use cluster_api_provider_het.Ignition.Network.{ipv6_address, primary_network, add_primary_network}
use cluster_api_provider_het.Ignition.Users.Exact.{is_authorized}
use cluster_api_provider_het.Ignition.{
  FlatcarInput, ensure_list, put_kubelet_args, put_network, put_key, flatcar_document,
}
use cluster_api_provider_het.Ignition.Total.{IsIgnition, IsIgnition-HasNoHttpFiles}
use cluster_api_provider_het.Ignition.Access.{users_of, flatcar_document-authorizes}
use cluster_api_provider_het.Ignition.Kubelet.{units_of, Supplied, flatcar_document-Supplied}
use cluster_api_provider_het.Witness.{env}

percent_decode-url_encode_example :
    percent_decode whole (url_encode (text "a b/%")) ≡ some (text "a b/%")
unfolding text
percent_decode-url_encode_example =
    percent_decode-url_encode (text "a b/%")
      (omega arith, (omega arith, (omega arith, (omega arith, (omega arith, tt)))))

abbrev input : FlatcarInput
input = record {
  bootstrap_data = [];
  provider_id = text "p";
  internal_ip = [];
  ipv6_net = [];
  primary_mac = text "aa";
  vlan_config = none;
  ssh_public_key = text "k";
  server_ip = text "1.2.3.4";
  gateway_ip = text "1.1.1.1";
}

-- A document with a file that would be downloaded, one with an inline content, and a unit with a
-- drop-in.
abbrev bootstrap : Fields
bootstrap =
    field (text "storage")
      (obj (
        field (text "files")
          (seq (
            item
              (obj (
                field (text "path") (str (text "/a")) (
                  field (text "contents") (obj (field (text "source") (str (text "http://a")) end))
                    end)))
              (item
                (obj (
                  field (text "path") (str (text "/b")) (
                    field (text "contents") (obj (field (text "inline") (str (text "x y")) end))
                      end)))
                nil)))
          end))
      (field (text "systemd")
        (obj (
          field (text "units")
            (seq (
              item
                (obj (
                  field (text "name") (str (text "kubelet.service")) (
                    field (text "dropins")
                      (seq (item (obj (field (text "name") (str (text "05-own.conf")) end)) nil))
                      end)))
                nil))
            end))
        end)

abbrev or_end : Result Fields → Fields
or_end (ok doc) = doc
or_end (err e) = end

-- The document that the machine is given.
abbrev document : Fields
document = or_end (flatcar_document env.json input bootstrap)

changes : flatcar_document env.json input bootstrap ≡ ok document
unfolding flatcar_document ensure_list put_kubelet_args put_network put_key fix_inline fix_files
    fix_file fix_contents remove_downloads is_remote split_files without_links without_downloads
    keep_links add_file url_encode is_plain hex_digit has_prefix add_unit append_item add_dropin
    add_kubelet_dropin node_ipv6 build_kubelet_extra_args has_text with_key authorize
    authorize_passwd add_authorized_key ipv6_address primary_network add_primary_network get set
    delete set_absent change_map change_list split trim_suffix join text text_eq concat need_map
    need_list need_text
changes = refl

has_arguments :
    is_empty (build_kubelet_extra_args input.provider_id input.internal_ip input.ipv6_net) ≡ false
unfolding build_kubelet_extra_args node_ipv6 split trim_suffix join text
has_arguments = refl

bootstrap-IsIgnition : IsIgnition bootstrap
unfolding get text text_eq
bootstrap-IsIgnition = record {
  storage = (inr (_, refl), inr (_, refl));
  paths = ((text "/a", refl), ((text "/b", refl), tt));
  systemd = (inr (_, refl), inr (_, refl));
  passwd = (inl refl, inl refl);
}

IsIgnition-HasNoHttpFiles_example :
    (doc : Fields) × (flatcar_document env.json input bootstrap ≡ ok doc) × HasNoHttpFiles doc
IsIgnition-HasNoHttpFiles_example =
    IsIgnition-HasNoHttpFiles env.json input bootstrap bootstrap-IsIgnition

flatcar_document-authorizes_example : is_authorized (text "core") (text "k") (users_of document) ≡ (
    is_authorized (text "core") (text "k") (users_of bootstrap)
    || (not (is_empty (text "k"))
        && (text_eq (text "core") (text "core") && text_eq (text "k") (text "k"))))
flatcar_document-authorizes_example =
    flatcar_document-authorizes env.json input bootstrap (text "core") (text "k") changes

flatcar_document-Supplied_example :
    Supplied (build_kubelet_extra_args (text "p") [] []) (units_of bootstrap) (units_of document)
flatcar_document-Supplied_example =
    flatcar_document-Supplied env.json input bootstrap has_arguments changes
