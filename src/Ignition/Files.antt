-- ===== src/Ignition/Files.antt =====
-- fixIgnitionInlineFields, removeIgnitionURLDownloads and addIgnitionFile. `print` is fmt's %v of a
-- value that is no string.
pub mod Sources
pub mod Cleaned
use cluster_api_provider_het.Prelude.{
  ℕ, Bool, true, false, ◌||◌, not, Option, none, some, List, [], ◌∷◌, ◌++◌, if◌then◌else◌, is_some,
}
use cluster_api_provider_het.Text.{Text, text, has_prefix}
use cluster_api_provider_het.Result.{Result, ok, err, and_then}
use cluster_api_provider_het.Config.{
  Value, Items, Fields, bool, num, str, seq, obj, nil, item, end, field, get, set, delete,
  child_map, append_item,
}
use cluster_api_provider_het.SshRescue.Hardware.{has_key}
use cluster_api_provider_het.Ignition.Encode.{url_encode}
use cluster_api_provider_het.Ignition.Document.{as_map, as_list, as_text, need_text, change_list}

-- fmt.Sprintf("%v", v)
abbrev sprint : (Value → Text) → Value → Text
sprint print (str s) = s
sprint print v = print v

abbrev pub data_uri : Text → Text
data_uri content = text "data:," ++ url_encode content

-- The source in place of an inline content that has no source.
unfoldable pub fix_contents : (Value → Text) → Fields → Fields
fix_contents print contents = elim (get (text "inline") contents) [
  | none ↦ contents
  | some v ↦
      if is_some (get (text "source") contents)
      then contents
      else delete (text "inline") (set (text "source") (str (data_uri (sprint print v))) contents)
]

unfoldable pub fix_file : (Value → Text) → Fields → Fields
unfolding fix_contents
fix_file print file = elim (as_map (get (text "contents") file)) [
  | none ↦ file
  | some contents ↦ set (text "contents") (obj (fix_contents print contents)) file
]

unfoldable pub fix_files : (Value → Text) → Items → Items
unfolding fix_file
fix_files print nil = nil
fix_files print (item (obj file) l) = item (obj (fix_file print file)) (fix_files print l)
fix_files print (item v l) = item v (fix_files print l)

-- fixIgnitionInlineFields
unfoldable pub fix_inline : (Value → Text) → Fields → Fields
unfolding fix_files
fix_inline print ign = elim (as_map (get (text "storage") ign)) [
  | none ↦ ign
  | some storage ↦ elim (as_list (get (text "files") storage)) [
    | none ↦ ign
    | some files ↦
        set (text "storage") (obj (set (text "files") (seq (fix_files print files)) storage)) ign
  ]
]

unfoldable pub is_remote : Text → Bool
is_remote source = has_prefix source (text "http://") || has_prefix source (text "https://")

-- The source of a file, "" where it has none.
abbrev pub source_of : Fields → Text
source_of file = as_text (get (text "source") (child_map (get (text "contents") file)))

-- The other files' result with a file that is kept, and with one that is not.
abbrev keeping : Value → Result (Items × List Text) → Result (Items × List Text)
keeping v rest = and_then rest λ r. ok (item v r.0, r.1)

abbrev dropping : Fields → Result (Items × List Text) → Result (Items × List Text)
dropping file rest =
    and_then (need_text (text "path") file) λ path. and_then rest λ r. ok (r.0, path ∷ r.1)

-- The files that are kept, and the paths of the others; a removed file's path must be a string.
unfoldable pub split_files : Items → Result (Items × List Text)
unfolding is_remote
split_files nil = ok (nil, [])
split_files (item (obj file) l) =
    let rest = split_files l in
    if is_remote (source_of file) then dropping file rest else keeping (obj file) rest
split_files (item v l) = keeping v (split_files l)

unfoldable pub keep_links : List Text → Items → Items
keep_links removed nil = nil
keep_links removed (item (obj link) l) =
    let rest = keep_links removed l in
    if has_key (as_text (get (text "target") link)) removed then rest else item (obj link) rest
keep_links removed (item v l) = item v (keep_links removed l)

-- The second loop, where a path was removed.
unfoldable pub without_links : List Text → Fields → Fields
unfolding keep_links
without_links [] storage = storage
without_links (p ∷ removed) storage = elim (as_list (get (text "links") storage)) [
  | none ↦ storage
  | some links ↦ set (text "links") (seq (keep_links (p ∷ removed) links)) storage
]

unfoldable pub without_downloads : Fields → Result Fields
unfolding split_files without_links
without_downloads storage = elim (as_list (get (text "files") storage)) [
  | none ↦ ok storage
  | some files ↦
      and_then (split_files files)
        λ r. ok (without_links r.1 (set (text "files") (seq r.0) storage))
]

-- removeIgnitionURLDownloads
unfoldable pub remove_downloads : Fields → Result Fields
unfolding without_downloads
remove_downloads ign = elim (as_map (get (text "storage") ign)) [
  | none ↦ ok ign
  | some storage ↦ and_then (without_downloads storage) λ s. ok (set (text "storage") (obj s) ign)
]

-- The file that addIgnitionFile makes.
abbrev pub local_file : Text → Text → ℕ → Fields
local_file path content mode = field (text "path") (str path) (
    field (text "contents") (obj (field (text "source") (str (data_uri content)) end))
      (field (text "mode") (num mode) (field (text "overwrite") (bool true) end)))

-- addIgnitionFile
unfoldable pub add_file : Text → Text → ℕ → Fields → Result Fields
unfolding change_list
add_file path content mode =
    change_list (text "files") (λ files. append_item files (obj (local_file path content mode)))
