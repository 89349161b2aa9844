-- ===== src/Ignition/Kinds/Storage.antt =====
-- The steps on the storage of a document whose parts are of their kinds.
use mathlib.Core.Path.{subst}
use cluster_api_provider_het.Prelude.{
  ◌≡◌, inl, inr, refl, sym, ap, ◌∙◌, false, some, List, arith, Bool-cases,
}
use cluster_api_provider_het.Text.{Text, text, text_eq}
use cluster_api_provider_het.Result.{ok}
use cluster_api_provider_het.Config.{
  Value, Items, Fields, str, seq, obj, nil, item, get, set, child_map,
}
use cluster_api_provider_het.Config.Paths.{get-set_self}
use cluster_api_provider_het.Ignition.Document.{as_map, need_text}
use cluster_api_provider_het.Ignition.Document.Changes.{get-set_ne}
use cluster_api_provider_het.Ignition.Files.{
  fix_contents, fix_file, fix_files, fix_inline, is_remote, source_of, split_files, without_links,
  without_downloads, remove_downloads,
}
use cluster_api_provider_het.Ignition.Files.Sources.{AllMaps, fix_file-other, fix_file-map}
use cluster_api_provider_het.Ignition.Files.Cleaned.{
  fix_inline-no_storage, fix_inline-no_files, fix_inline-files, without_links-files,
  without_downloads-no_files, without_downloads-files, remove_downloads-no_storage,
  remove_downloads-storage, stored_in, kept_in, map_cases, list_cases, files_of,
}
use cluster_api_provider_het.Ignition.Kinds.{
  MayBeList, MayHold, HasPath, and_then-made, MayHold-set,
}

contents_ne_path : text_eq (text "contents") (text "path") ≡ false
unfolding text text_eq
contents_ne_path = refl

fix_file-path :
    (print : Value → Text) (file : Fields)
    → get (text "path") (fix_file print file) ≡ get (text "path") file
fix_file-path print file = elim (map_cases (get (text "contents") file)) [
  | inr (other, gone) ↦ ap (get (text "path")) (fix_file-other print file other)
  | inl (c, there) ↦
      ap (get (text "path")) (fix_file-map print file (ap as_map there))
      ∙ get-set_ne (text "contents") (text "path") (obj (fix_contents print c)) file
          contents_ne_path
]

fix_files-HasPath :
    (print : Value → Text) (l : Items) → AllMaps HasPath l → AllMaps HasPath (fix_files print l)
unfolding fix_files
fix_files-HasPath print nil a = tt
fix_files-HasPath print (item (Value.obj f) l) ((path, e), b) =
    ((path, fix_file-path print f ∙ e), fix_files-HasPath print l b)
fix_files-HasPath print (item _ l) a = fix_files-HasPath print l a

need_text-made :
    (key : Text) (m : Fields) {s : Text} → get key m ≡ some (str s) → need_text key m ≡ ok s
unfolding need_text
need_text-made key m e = ground (arith, e)

split_files-made :
    (l : Items) → AllMaps HasPath l → (r : Items × List Text) × (split_files l ≡ ok r)
unfolding split_files
split_files-made nil a = (_, refl)
split_files-made (item (Value.obj f) l) ((path, e), b) =
    let (r, made) = split_files-made l b in
    elim (Bool-cases (is_remote (source_of f))) [
      | inl remote ↦ rw (remote, need_text-made (text "path") f e, made) (_, refl)
      | inr here ↦ rw (here, made) (_, refl)
    ]
split_files-made (item _ l) a = let (r, made) = split_files-made l a in rw made (_, refl)

-- The storage of a document is of its kind, and its files name their paths.
abbrev pub FitsStorage : Fields → Type 0
FitsStorage ign = MayHold (text "files") (get (text "storage") ign) × AllMaps HasPath (files_of ign)

pub fix_inline-FitsStorage :
    (print : Value → Text) (ign : Fields) → FitsStorage ign → FitsStorage (fix_inline print ign)
fix_inline-FitsStorage print ign a = elim (map_cases (get (text "storage") ign)) [
  | inr (other, gone) ↦ subst FitsStorage (sym (fix_inline-no_storage print ign other)) a
  | inl (m, there) ↦ elim (list_cases (get (text "files") m)) [
    | inr (other, gone) ↦ subst FitsStorage (sym (fix_inline-no_files print ign there other)) a
    | inl (files, here) ↦
        rw (fix_inline-files print ign there here, get-set_self, get-set_self)
          (
            (inr (_, refl), inr (_, refl)),
            fix_files-HasPath print files (rw (there, here) at (a.1)),
          )
  ]
]

pub remove_downloads-made :
    (ign : Fields)
    → FitsStorage ign
    → (doc : Fields) × (remove_downloads ign ≡ ok doc)
      × MayHold (text "files") (get (text "storage") doc)
remove_downloads-made ign a = elim (map_cases (get (text "storage") ign)) [
  | inr (other, gone) ↦ (ign, remove_downloads-no_storage ign other, a.0)
  | inl (m, there) ↦ elim (list_cases (get (text "files") m)) [
    | inr (other, gone) ↦ (
      set (text "storage") (obj m) ign,
      remove_downloads-storage ign there
          ∙ and_then-made (without_downloads m) (stored_in ign) (without_downloads-no_files m other)
              refl,
      MayHold-set (text "storage") (text "files") m ign
          (subst (λ v. MayBeList (get (text "files") (child_map v))) there (a.0.1)),
    )
    | inl (files, here) ↦
        let (r, made) = split_files-made files (rw (there, here) at (a.1)) in
        let s = without_links r.1 (set (text "files") (seq r.0) m) in
        (
          set (text "storage") (obj s) ign,
          remove_downloads-storage ign there
              ∙ and_then-made (without_downloads m) (stored_in ign)
                  (without_downloads-files m here
                    ∙ and_then-made (split_files files) (kept_in m) made refl)
                  refl,
          MayHold-set (text "storage") (text "files") s ign
              (inr (r.0, without_links-files r.1 _ ∙ get-set_self (text "files") (seq r.0) m)),
        )
  ]
]
