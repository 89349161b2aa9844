-- ===== src/Witness/Inject.antt =====
-- Documents with an install disk and with arguments of kubelet.
use cluster_api_provider_het.Prelude.{[], ◌∷◌, none, refl, ◌≡◌, some, if◌then◌else◌}
use cluster_api_provider_het.Text.{
  Text, has_prefix, contains, trim_space, trim_prefix, text, text_eq,
}
use cluster_api_provider_het.Result.{ok}
use cluster_api_provider_het.Config.{Codec, Fields, Value, str, obj, field, end, get}
use cluster_api_provider_het.Inject.Documents.{
  split_at, clean_documents, split_yaml_documents, modify_first_document,
}
use cluster_api_provider_het.Inject.Behind.{
  AllDocuments, as_read, split_yaml_documents-modify_first_document,
}
use cluster_api_provider_het.Inject.{with_install_disk, with_extra_arg}
use cluster_api_provider_het.Inject.Settings.{
  install_of, extra_args_of, or_else, with_install_disk-keeps, with_extra_arg-sets,
}

abbrev sda : Value
sda = str (text "/dev/sda")

-- machine.install.disk is set, and machine has nothing else.
abbrev installed : Fields
installed =
    field (text "machine") (obj (field (text "install") (obj (field (text "disk") sda end)) end))
      end

with_install_disk-keeps_example :
    get (text "disk") (install_of (with_install_disk (text "/dev/nvme0n1") installed))
    ≡ or_else
        (get (text "disk") (install_of installed))
        (if text_eq (text "disk") (text "disk") then some (str (text "/dev/nvme0n1")) else none)
with_install_disk-keeps_example =
    with_install_disk-keeps (text "/dev/nvme0n1") installed (text "disk")

with_extra_arg-sets_example :
    get
      (text "provider-id")
      (extra_args_of (with_extra_arg (text "node-ip") (text "10.0.0.1") installed))
    ≡ (if text_eq (text "node-ip") (text "provider-id")
        then some (str (text "10.0.0.1"))
        else get (text "provider-id") (extra_args_of installed))
with_extra_arg-sets_example =
    with_extra_arg-sets (text "node-ip") (text "10.0.0.1") installed (text "provider-id")

-- A codec whose documents are all printed alike.
abbrev one_line : Codec
one_line = record { unmarshal = λ t. ok (some end); marshal = λ m. ok (text "a: 1\n") }

abbrev two_documents : Text
two_documents = text "a: 0\n---\nb: 0\n"

read : split_yaml_documents two_documents ≡ text "a: 0" ∷ text "b: 0" ∷ []
unfolding split_yaml_documents clean_documents split_at trim_space trim_prefix has_prefix text_eq
    text
read = refl

second-IsDocument : AllDocuments (text "b: 0" ∷ [])
unfolding text has_prefix contains trim_space text_eq
second-IsDocument = ((refl, refl, refl, refl), tt)

split_yaml_documents-modify_first_document_example :
    (r : Text) × (modify_first_document one_line two_documents (with_install_disk (text "/dev/sda"))
      ≡ ok r)
    × (split_yaml_documents r ≡ as_read (text "a: 1\n") ∷ text "b: 0" ∷ [])
split_yaml_documents-modify_first_document_example =
    split_yaml_documents-modify_first_document one_line two_documents
      (with_install_disk (text "/dev/sda")) read second-IsDocument refl refl
      (unfold text has_prefix contains trim_space text_eq in (refl, refl))
