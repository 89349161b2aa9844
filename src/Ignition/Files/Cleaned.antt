-- ===== src/Ignition/Files/Cleaned.antt =====
-- The files of a document whose inline contents were fixed and whose downloads were removed.
use mathlib.Core.Path.{subst}
use cluster_api_provider_het.Prelude.{
  ◌≡◌, refl, sym, ap, ◌∙◌, false, Option, none, some, List, [], ◌∷◌, arith, ◌⊎◌, inl, inr,
}
use cluster_api_provider_het.Text.{Text, text, text_eq}
use cluster_api_provider_het.Result.{Result, ok, and_then, Result_value, and_then-eq-ok}
use cluster_api_provider_het.Config.{
  Value, Items, Fields, seq, obj, nil, end, get, set, child_map, child_list,
}
use cluster_api_provider_het.Config.Paths.{get-set_self}
use cluster_api_provider_het.Ignition.Document.{as_map, as_list}
use cluster_api_provider_het.Ignition.Document.Changes.{get-set_ne}
use cluster_api_provider_het.Ignition.Files.{
  fix_files, fix_inline, split_files, without_links, keep_links, without_downloads,
  remove_downloads,
}
use cluster_api_provider_het.Ignition.Files.Sources.{
  IsSourced, IsNoHttp, AllMaps, fix_files-IsSourced, split_files-IsNoHttp,
}

abbrev pub files_in : Fields → Items
files_in storage = child_list (get (text "files") storage)

-- The files of a document.
abbrev pub files_of : Fields → Items
files_of ign = files_in (child_map (get (text "storage") ign))

pub map_cases :
    (v : Option Value)
    → ((m : Fields) × (v ≡ some (obj m))) ⊎ ((as_map v ≡ none) × (child_map v ≡ end))
map_cases none = inr (refl, refl)
map_cases (some (Value.obj m)) = inl (m, refl)
map_cases (some _) = inr (refl, refl)

pub list_cases :
    (v : Option Value)
    → ((l : Items) × (v ≡ some (seq l))) ⊎ ((as_list v ≡ none) × (child_list v ≡ nil))
list_cases none = inr (refl, refl)
list_cases (some (Value.seq m)) = inl (m, refl)
list_cases (some _) = inr (refl, refl)

pub fix_inline-no_storage :
    (print : Value → Text) (ign : Fields)
    → as_map (get (text "storage") ign) ≡ none
    → fix_inline print ign ≡ ign
unfolding fix_inline
fix_inline-no_storage print ign h = ground arith

pub fix_inline-no_files :
    (print : Value → Text) (ign : Fields) {storage : Fields}
    → get (text "storage") ign ≡ some (obj storage)
    → as_list (get (text "files") storage) ≡ none
    → fix_inline print ign ≡ ign
unfolding fix_inline
fix_inline-no_files print ign h g = ground arith

pub fix_inline-files :
    (print : Value → Text) (ign : Fields) {storage : Fields} {files : Items}
    → get (text "storage") ign ≡ some (obj storage)
    → get (text "files") storage ≡ some (seq files)
    → fix_inline print ign
      ≡ set (text "storage") (obj (set (text "files") (seq (fix_files print files)) storage)) ign
unfolding fix_inline
fix_inline-files print ign h g = ground arith

pub fix_inline-IsSourced :
    (print : Value → Text) (ign : Fields) → AllMaps IsSourced (files_of (fix_inline print ign))
fix_inline-IsSourced print ign = elim (map_cases (get (text "storage") ign)) [
  | inr (other, gone) ↦ rw (fix_inline-no_storage print ign other, gone) (unfold get in tt)
  | inl (storage, there) ↦ elim (list_cases (get (text "files") storage)) [
    | inr (other, gone) ↦ rw (fix_inline-no_files print ign there other, there, gone) tt
    | inl (files, here) ↦
        rw (fix_inline-files print ign there here, get-set_self, get-set_self)
          (fix_files-IsSourced print files)
  ]
]

links_ne_files : text_eq (text "links") (text "files") ≡ false
unfolding text text_eq
links_ne_files = refl

pub without_links-files :
    (removed : List Text) (storage : Fields)
    → get (text "files") (without_links removed storage) ≡ get (text "files") storage
unfolding without_links
without_links-files [] storage = refl
without_links-files (p ∷ removed) storage = elim (list_cases (get (text "links") storage)) [
  | inr (other, gone) ↦ ground (arith, other)
  | inl (links, there) ↦ ground (
    arith,
    there,
    get-set_ne (text "links") (text "files") (seq (keep_links (p ∷ removed) links)) storage
        links_ne_files,
  )
]

files_in-without_links :
    (removed : List Text) (storage : Fields)
    → files_in (without_links removed storage) ≡ files_in storage
files_in-without_links removed storage = ap child_list (without_links-files removed storage)

pub without_downloads-no_files :
    (storage : Fields)
    → as_list (get (text "files") storage) ≡ none
    → without_downloads storage ≡ ok storage
unfolding without_downloads
without_downloads-no_files storage h = ground arith

-- The storage with the files that are kept.
abbrev pub kept_in : Fields → Items × List Text → Result Fields
kept_in storage r = ok (without_links r.1 (set (text "files") (seq r.0) storage))

pub without_downloads-files :
    (storage : Fields) {files : Items}
    → get (text "files") storage ≡ some (seq files)
    → without_downloads storage ≡ and_then (split_files files) (kept_in storage)
unfolding without_downloads
without_downloads-files storage h = ground arith

without_downloads-IsNoHttp :
    (storage : Fields) {s : Fields}
    → without_downloads storage ≡ ok s
    → AllMaps IsSourced (files_in storage)
    → AllMaps IsNoHttp (files_in s)
without_downloads-IsNoHttp storage h a = elim (list_cases (get (text "files") storage)) [
  | inr (other, gone) ↦
      subst (λ x. AllMaps IsNoHttp (files_in x))
        (Result_value (sym (without_downloads-no_files storage other) ∙ h)) (rw gone tt)
  | inl (files, there) ↦
      let (r, e, g) =
        and_then-eq-ok (split_files files) (kept_in storage)
          (sym (without_downloads-files storage there) ∙ h) in
      subst (λ x. AllMaps IsNoHttp (files_in x)) (Result_value g)
        (rw (files_in-without_links r.1 (set (text "files") (seq r.0) storage), get-set_self)
          (split_files-IsNoHttp files e (rw there at a)))
]

-- No file of a document, where it is a map, has an http or https source or an inline content alone.
abbrev pub HasNoHttpFiles : Fields → Type 0
HasNoHttpFiles ign = AllMaps IsNoHttp (files_of ign)

pub remove_downloads-no_storage :
    (ign : Fields) → as_map (get (text "storage") ign) ≡ none → remove_downloads ign ≡ ok ign
unfolding remove_downloads
remove_downloads-no_storage ign h = ground arith

abbrev pub stored_in : Fields → Fields → Result Fields
stored_in ign storage = ok (set (text "storage") (obj storage) ign)

pub remove_downloads-storage :
    (ign : Fields) {storage : Fields}
    → get (text "storage") ign ≡ some (obj storage)
    → remove_downloads ign ≡ and_then (without_downloads storage) (stored_in ign)
unfolding remove_downloads
remove_downloads-storage ign h = ground arith

pub remove_downloads-local :
    (ign : Fields) {doc : Fields}
    → remove_downloads ign ≡ ok doc
    → AllMaps IsSourced (files_of ign)
    → HasNoHttpFiles doc
remove_downloads-local ign h a = elim (map_cases (get (text "storage") ign)) [
  | inr (other, gone) ↦
      subst HasNoHttpFiles (Result_value (sym (remove_downloads-no_storage ign other) ∙ h))
        (rw gone (unfold get in tt))
  | inl (storage, there) ↦
      let (s, e, g) =
        and_then-eq-ok (without_downloads storage) (stored_in ign)
          (sym (remove_downloads-storage ign there) ∙ h) in
      subst HasNoHttpFiles (Result_value g)
        (rw get-set_self (without_downloads-IsNoHttp storage e (rw there at a)))
]

storage_rest :
    (v : Value) (ign : Fields) (j : Text)
    → text_eq (text "storage") j ≡ false
    → get j (set (text "storage") v ign) ≡ get j ign
storage_rest v ign j n = get-set_ne (text "storage") j v ign n

pub fix_inline-rest :
    (print : Value → Text) (ign : Fields) (j : Text)
    → text_eq (text "storage") j ≡ false
    → get j (fix_inline print ign) ≡ get j ign
fix_inline-rest print ign j n = elim (map_cases (get (text "storage") ign)) [
  | inr (other, gone) ↦ rw (fix_inline-no_storage print ign other)
  | inl (storage, there) ↦ elim (list_cases (get (text "files") storage)) [
    | inr (other, gone) ↦ rw (fix_inline-no_files print ign there other)
    | inl (files, here) ↦ rw (fix_inline-files print ign there here) (storage_rest _ ign j n)
  ]
]

pub remove_downloads-rest :
    (ign : Fields) {doc : Fields} (j : Text)
    → remove_downloads ign ≡ ok doc
    → text_eq (text "storage") j ≡ false
    → get j doc ≡ get j ign
remove_downloads-rest ign j h n = elim (map_cases (get (text "storage") ign)) [
  | inr (other, gone) ↦
      ap (get j) (sym (Result_value (sym (remove_downloads-no_storage ign other) ∙ h)))
  | inl (storage, there) ↦
      let (s, e, g) =
        and_then-eq-ok (without_downloads storage) (stored_in ign)
          (sym (remove_downloads-storage ign there) ∙ h) in
      ap (get j) (sym (Result_value g)) ∙ storage_rest (obj s) ign j n
]
