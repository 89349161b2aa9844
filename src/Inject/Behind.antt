-- ===== src/Inject/Behind.antt =====
-- The documents behind the first, when the first is changed.
use mathlib.Core.List.{append_assoc, append-nil}
use cluster_api_provider_het.Prelude.{
  ℕ, ◌≡◌, refl, sym, ap, ◌∙◌, false, ◌||◌, some, List, [], ◌∷◌, ◌++◌, arith,
}
use cluster_api_provider_het.Text.{
  Text, text, text_eq, is_empty, has_prefix, contains, trim_space, trim_prefix,
}
use cluster_api_provider_het.Text.Contains.{has_prefix-append}
use cluster_api_provider_het.Result.{ok}
use cluster_api_provider_het.Config.{Fields, Codec}
use cluster_api_provider_het.Inject.Documents.{
  split_at, clean_documents, separator, split_yaml_documents, append_documents, marshal_documents,
  change_first, modify_documents, modify_first_document,
}

-- A text in which a separator neither stands nor begins at its end.
abbrev pub IsOne : Text → Type 0
IsOne s = contains (s ++ 10 ∷ []) separator ≡ false

-- Whether a separator begins at a byte of a document is decided by the document and the first byte
-- of the separator behind it.
prefix_local :
    (c : ℕ) (t s : Text)
    → has_prefix (c ∷ t ++ (separator ++ s)) separator ≡ has_prefix (c ∷ t ++ 10 ∷ []) separator
unfolding has_prefix text
prefix_local c [] s = refl
prefix_local c (d ∷ []) s = refl
prefix_local c (d ∷ e ∷ []) s = refl
prefix_local c (d ∷ e ∷ f ∷ []) s = refl
prefix_local c (d ∷ e ∷ f ∷ g ∷ t) s = refl

IsOne-head :
    (c : ℕ) (t : Text) → IsOne (c ∷ t) → (has_prefix (c ∷ t ++ 10 ∷ []) separator ≡ false) × IsOne t
unfolding contains
IsOne-head c t h = ground arith

split_here : (s : Text) → split_at separator 0 (separator ++ s) ≡ [] ∷ split_at separator 0 s
unfolding split_at has_prefix text
split_here s = refl

split_part :
    (p s : Text)
    → IsOne p
    → split_at separator 0 (p ++ (separator ++ s)) ≡ p ∷ split_at separator 0 s
unfolding split_at
split_part [] s h = split_here s
split_part (c ∷ t) s h =
    let (other, rest) = IsOne-head c t h in rw (prefix_local c t s, other, split_part t s rest) refl

not_shorter :
    (c : ℕ) (t : Text)
    → has_prefix (c ∷ t ++ 10 ∷ []) separator ≡ false
    → has_prefix (c ∷ t) separator ≡ false
not_shorter c t h = ground (arith, has_prefix-append (c ∷ t) (10 ∷ []) separator)

split_last : (p : Text) → IsOne p → split_at separator 0 p ≡ p ∷ []
unfolding split_at
split_last [] h = refl
split_last (c ∷ t) h =
    let (other, rest) = IsOne-head c t h in rw (not_shorter c t other, split_last t rest) refl

-- The documents behind the first, each behind a separator.
printed : List Text → Text
printed [] = []
printed (d ∷ docs) = separator ++ (d ++ printed docs)

append_documents-printed :
    (first : Text) (docs : List Text) → append_documents first docs ≡ first ++ printed docs
unfolding append_documents printed
append_documents-printed first [] = sym (append-nil first)
append_documents-printed first (d ∷ docs) =
    append_documents-printed (first ++ (separator ++ d)) docs
    ∙ append_assoc first (separator ++ d) (printed docs)
    ∙ ap (λ x. first ++ x) (append_assoc separator d (printed docs))

-- A document as splitYAMLDocuments returns it: trimmed, and with nothing that the loop drops.
abbrev pub IsDocument : Text → Type 0
IsDocument d =
    IsOne d
    × (trim_space d ≡ d)
    × (is_empty d || text_eq d (text "---") ≡ false)
    × (has_prefix d (text "---\n") ≡ false)

abbrev pub AllDocuments : List Text → Type 0
AllDocuments [] = Unit
AllDocuments (d ∷ docs) = IsDocument d × AllDocuments docs

-- A text that is printed for a map: one document, which is not empty.
abbrev pub IsPrinted : Text → Type 0
IsPrinted t = IsOne t × (is_empty (trim_space t) || text_eq (trim_space t) (text "---") ≡ false)

split_printed :
    (first : Text) (docs : List Text)
    → IsOne first
    → AllDocuments docs
    → split_at separator 0 (first ++ printed docs) ≡ first ∷ docs
unfolding printed
split_printed first [] h a = rw (append-nil first) (split_last first h)
split_printed first (d ∷ docs) h (a, b) =
    split_part first (d ++ printed docs) h ∙ ap (λ x. first ∷ x) (split_printed d docs a.0 b)

clean_documents-same : (docs : List Text) → AllDocuments docs → clean_documents docs ≡ docs
unfolding clean_documents trim_prefix
clean_documents-same [] a = refl
clean_documents-same (d ∷ docs) ((one, trimmed, full, bare), b) =
    rw (trimmed, full, bare, clean_documents-same docs b) refl

-- The first document as the next reader gets it.
abbrev pub as_read : Text → Text
as_read first = trim_prefix (trim_space first) (text "---\n")

clean_documents-first :
    (first : Text) (docs : List Text)
    → IsPrinted first
    → AllDocuments docs
    → clean_documents (first ∷ docs) ≡ as_read first ∷ docs
unfolding clean_documents
clean_documents-first first docs (one, full) a = rw (full, clean_documents-same docs a) refl

split_yaml_documents-append :
    (first : Text) (docs : List Text)
    → IsPrinted first
    → AllDocuments docs
    → split_yaml_documents (append_documents first docs) ≡ as_read first ∷ docs
unfolding split_yaml_documents
split_yaml_documents-append first docs p a =
    ap (λ s. clean_documents (split_at separator 0 s)) (append_documents-printed first docs)
    ∙ ap clean_documents (split_printed first docs p.0 a)
    ∙ clean_documents-first first docs p a

modify_documents-made :
    (c : Codec) (f : Fields → Fields) (doc : Text) (docs : List Text) {m : Fields} {first : Text}
    → c.unmarshal doc ≡ ok (some m)
    → c.marshal (f m) ≡ ok first
    → modify_documents c f (doc ∷ docs) ≡ ok (append_documents first docs)
unfolding modify_documents change_first marshal_documents
modify_documents-made c f doc docs u e = rw (u, e) refl

-- Where the first document is read as a map and its change is printed as one document that is not
-- empty, and the documents behind it are trimmed and hold no separator, a change of the first
-- document succeeds, and a next change reads the printed document and, byte for byte and in their
-- order, the others behind it.
pub split_yaml_documents-modify_first_document :
    (c : Codec) (s : Text) (f : Fields → Fields) {doc : Text} {docs : List Text} {m : Fields}
    {first : Text}
    → split_yaml_documents s ≡ doc ∷ docs
    → AllDocuments docs
    → c.unmarshal doc ≡ ok (some m)
    → c.marshal (f m) ≡ ok first
    → IsPrinted first
    → (r : Text) × (modify_first_document c s f ≡ ok r)
      × (split_yaml_documents r ≡ as_read first ∷ docs)
unfolding modify_first_document
split_yaml_documents-modify_first_document c s f {doc} {docs} {m} {first} h a u e p = (
  append_documents first docs,
  ap (modify_documents c f) h ∙ modify_documents-made c f doc docs u e,
  split_yaml_documents-append first docs p a,
)
