-- ===== src/Text/Sort.antt =====
-- sort.Strings and strings.Join.
use cluster_api_provider_het.Prelude.{
  ℕ, Bool, true, false, List, [], ◌∷◌, ◌++◌, ltb, ◌==◌, ◌&&◌, ◌||◌, if◌then◌else◌,
}

-- s <= t, byte by byte
unfoldable pub text_leb : List ℕ → List ℕ → Bool
text_leb [] t = true
text_leb (c ∷ s) [] = false
text_leb (c ∷ s) (d ∷ t) = ltb c d || (c == d && text_leb s t)

unfoldable insert_string : List ℕ → List (List ℕ) → List (List ℕ)
unfolding text_leb
insert_string s [] = s ∷ []
insert_string s (t ∷ l) = if text_leb s t then s ∷ t ∷ l else t ∷ insert_string s l

-- sort.Strings(l)
unfoldable pub sort_strings : List (List ℕ) → List (List ℕ)
unfolding insert_string
sort_strings [] = []
sort_strings (s ∷ l) = insert_string s (sort_strings l)

-- strings.Join(l, sep)
unfoldable pub join : List ℕ → List (List ℕ) → List ℕ
join sep [] = []
join sep (s ∷ []) = s
join sep (s ∷ t ∷ l) = s ++ (sep ++ join sep (t ∷ l))
