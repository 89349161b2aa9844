-- ===== src/Ignition/Files/Sources.antt =====
-- The sources and the inline contents of files.
use mathlib.Core.Path.{subst}
use cluster_api_provider_het.Prelude.{
  ℕ, ◌≡◌, refl, ◌∙◌, false, not, ◌&&◌, Option, none, some, List, arith, Bool-cases, Option-cases,
  inl, inr, is_some,
}
use cluster_api_provider_het.Text.{Text, text, text_eq, has_prefix}
use cluster_api_provider_het.Result.{ok, Result_value, and_then-eq-ok}
use cluster_api_provider_het.Config.{
  Value, Items, Fields, str, obj, nil, item, get, set, delete, child_map, append_item,
}
use cluster_api_provider_het.Config.Paths.{get-set_self}
use cluster_api_provider_het.Ignition.Document.{as_map, need_text}
use cluster_api_provider_het.Ignition.Document.Changes.{get-delete_ne}
use cluster_api_provider_het.Ignition.Files.{
  sprint, data_uri, fix_contents, fix_file, fix_files, is_remote, source_of, split_files,
  local_file,
}

abbrev pub contents_of : Fields → Fields
contents_of file = child_map (get (text "contents") file)

-- No content of the file is inline only.
abbrev pub IsSourced : Fields → Type 0
IsSourced file =
    is_some (get (text "inline") (contents_of file))
      && not (is_some (get (text "source") (contents_of file)))
    ≡ false

-- The source of the file is not an http or https address, and its content is not inline only.
abbrev pub IsNoHttp : Fields → Type 0
IsNoHttp file =
    (has_prefix (source_of file) (text "http://") ≡ false)
    × (has_prefix (source_of file) (text "https://") ≡ false)
    × IsSourced file

-- The predicate holds of every item that is a map.
abbrev pub AllMaps : (Fields → Type 0) → Items → Type 0
AllMaps P nil = Unit
AllMaps P (item (obj m) l) = P m × AllMaps P l
AllMaps P (item v l) = AllMaps P l

inline_ne_source : text_eq (text "inline") (text "source") ≡ false
unfolding text text_eq
inline_ne_source = refl

source_kept :
    (v : Value) (m : Fields)
    → get (text "source") (delete (text "inline") (set (text "source") v m)) ≡ some v
source_kept v m =
    get-delete_ne (text "inline") (text "source") (set (text "source") v m) inline_ne_source
    ∙ get-set_self (text "source") v m

fix_contents-source :
    (print : Value → Text) (contents : Fields)
    → is_some (get (text "inline") (fix_contents print contents))
        && not (is_some (get (text "source") (fix_contents print contents)))
      ≡ false
unfolding fix_contents
fix_contents-source print contents = elim (Option-cases (get (text "inline") contents)) [
  | inl gone ↦ ground (arith, gone)
  | inr (v, there) ↦ ground (arith, there, source_kept (str (data_uri (sprint print v))) contents)
]

child_map-none : (v : Option Value) → as_map v ≡ none → child_map v ≡ Fields.end
child_map-none (some (Value.obj m)) h = cc
child_map-none none h = refl
child_map-none (some _) h = refl

pub fix_file-other :
    (print : Value → Text) (file : Fields)
    → as_map (get (text "contents") file) ≡ none
    → fix_file print file ≡ file
unfolding fix_file
fix_file-other print file h = ground arith

pub fix_file-map :
    (print : Value → Text) (file : Fields) {c : Fields}
    → as_map (get (text "contents") file) ≡ some c
    → fix_file print file ≡ set (text "contents") (obj (fix_contents print c)) file
unfolding fix_file
fix_file-map print file h = ground arith

end-IsSourced :
    is_some (get (text "inline") Fields.end) && not (is_some (get (text "source") Fields.end))
    ≡ false
unfolding get
end-IsSourced = refl

fix_file-IsSourced : (print : Value → Text) (file : Fields) → IsSourced (fix_file print file)
fix_file-IsSourced print file = elim (Option-cases (as_map (get (text "contents") file))) [
  | inl other ↦
      rw (fix_file-other print file other, child_map-none (get (text "contents") file) other)
        end-IsSourced
  | inr (c, there) ↦
      rw
        (
          fix_file-map print file there,
          get-set_self (text "contents") (obj (fix_contents print c)) file,
        )
        (fix_contents-source print c)
]

pub fix_files-IsSourced : (print : Value → Text) (l : Items) → AllMaps IsSourced (fix_files print l)
unfolding fix_files
fix_files-IsSourced print nil = tt
fix_files-IsSourced print (item (Value.obj f) l) =
    (fix_file-IsSourced print f, fix_files-IsSourced print l)
fix_files-IsSourced print (item _ l) = fix_files-IsSourced print l

is_remote-parts :
    (source : Text)
    → is_remote source ≡ false
    → (has_prefix source (text "http://") ≡ false) × (has_prefix source (text "https://") ≡ false)
unfolding is_remote
is_remote-parts source h = ground arith

pub split_files-IsNoHttp :
    (l : Items) {r : Items × List Text}
    → split_files l ≡ ok r
    → AllMaps IsSourced l
    → AllMaps IsNoHttp r.0
unfolding split_files
split_files-IsNoHttp nil h s = subst (λ r. AllMaps IsNoHttp r.0) (Result_value h) tt
split_files-IsNoHttp (item (Value.obj f) l) h s = elim (Bool-cases (is_remote (source_of f))) [
  | inl remote ↦
      let (path, e, g) = and_then-eq-ok (need_text (text "path") f) _ (rw remote at h) in
      let (r, e', g') = and_then-eq-ok (split_files l) _ g in
      subst (λ r. AllMaps IsNoHttp r.0) (Result_value g') (split_files-IsNoHttp l e' s.1)
  | inr here ↦
      let (r, e, g) = and_then-eq-ok (split_files l) _ (rw here at h) in
      let (http, https) = is_remote-parts (source_of f) here in
      subst (λ r. AllMaps IsNoHttp r.0) (Result_value g)
        ((http, https, s.0), split_files-IsNoHttp l e s.1)
]
split_files-IsNoHttp (item _ l) h s =
    let (r, e, g) = and_then-eq-ok (split_files l) _ h in
    subst (λ r. AllMaps IsNoHttp r.0) (Result_value g) (split_files-IsNoHttp l e s)

pub append-AllMaps :
    (P : Fields → Type 0) (l : Items) (f : Fields)
    → AllMaps P l
    → P f
    → AllMaps P (append_item l (obj f))
unfolding append_item
append-AllMaps P nil f a p = (p, tt)
append-AllMaps P (item (Value.obj m) l) f a p = (a.0, append-AllMaps P l f a.1 p)
append-AllMaps P (item _ l) f a p = append-AllMaps P l f a p

pub local_file-IsNoHttp : (path content : Text) (mode : ℕ) → IsNoHttp (local_file path content mode)
unfolding has_prefix text get text_eq
local_file-IsNoHttp path content mode = (refl, refl, refl)
