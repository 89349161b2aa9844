-- ===== src/Inject/Documents.antt =====
-- splitYAMLDocuments and modifyFirstDocument.
use cluster_api_provider_het.Prelude.{
  ℕ, zero, suc, ◌-◌, Option, none, some, List, [], ◌∷◌, ◌++◌, if◌then◌else◌, length, ◌||◌,
}
use cluster_api_provider_het.Text.{
  Text, text, text_eq, concat, is_empty, has_prefix, trim_prefix, trim_space,
}
use cluster_api_provider_het.Result.{Result, ok, err}
use cluster_api_provider_het.Config.{Fields, Codec}

-- The first part of a split takes one more byte.
abbrev cons_first : ℕ → List Text → List Text
cons_first c [] = (c ∷ []) ∷ []
cons_first c (p ∷ ps) = (c ∷ p) ∷ ps

-- bytes.Split(s, sep), with `skip` bytes of a separator still to pass
unfoldable pub split_at : Text → ℕ → Text → List Text
split_at sep skip [] = [] ∷ []
split_at sep (suc k) (c ∷ s) = split_at sep k s
split_at sep zero (c ∷ s) =
    let next = split_at sep (length sep - 1) s in
    let rest = split_at sep 0 s in if has_prefix (c ∷ s) sep then [] ∷ next else cons_first c rest

-- The loop of splitYAMLDocuments.
unfoldable pub clean_documents : List Text → List Text
clean_documents [] = []
clean_documents (raw ∷ rest) =
    let p = trim_space raw in
    let docs = clean_documents rest in
    if is_empty p || text_eq p (text "---") then docs else trim_prefix p (text "---\n") ∷ docs

abbrev pub separator : Text
separator = text "\n---\n"

unfoldable pub split_yaml_documents : Text → List Text
split_yaml_documents s = clean_documents (split_at separator 0 s)

-- The loop that puts the other documents behind the first.
unfoldable pub append_documents : Text → List Text → Text
append_documents first [] = first
append_documents first (doc ∷ docs) = append_documents (first ++ (separator ++ doc)) docs

unfoldable pub marshal_documents : List Text → Result Text → Result Text
marshal_documents docs (err e) = err (concat (text "marshal first document: " ∷ e ∷ []))
marshal_documents docs (ok first) = ok (append_documents first docs)

-- A change of the nil map is Go's panic.
unfoldable pub change_first :
    Codec → (Fields → Fields) → List Text → Result (Option Fields) → Result Text
change_first c f docs (err e) = err (concat (text "unmarshal first document: " ∷ e ∷ []))
change_first c f docs (ok none) = err (text "panic: assignment to entry in nil map")
change_first c f docs (ok (some m)) = marshal_documents docs (c.marshal (f m))

unfoldable pub modify_documents : Codec → (Fields → Fields) → List Text → Result Text
modify_documents c f [] = err (text "empty machineconfig")
modify_documents c f (doc ∷ docs) = change_first c f docs (c.unmarshal doc)

unfoldable pub modify_first_document : Codec → Text → (Fields → Fields) → Result Text
unfolding modify_documents change_first marshal_documents
modify_first_document c s f = modify_documents c f (split_yaml_documents s)
