-- ===== src/Text/Split.antt =====
-- strings.Split on one byte, strings.TrimSpace and strings.TrimSuffix.
use cluster_api_provider_het.Prelude.{
  ℕ, ◌≡◌, ◌≢◌, Bool, true, false, ◌&&◌, ◌||◌, List, [], ◌∷◌, ◌++◌, arith, leb, ◌==◌, if◌then◌else◌,
}

-- The first part of a split takes one more byte.
abbrev cons_first : ℕ → List (List ℕ) → List (List ℕ)
cons_first c [] = (c ∷ []) ∷ []
cons_first c (p ∷ ps) = (c ∷ p) ∷ ps

-- strings.Split(s, sep) for a separator of one byte; the parts are never fewer than one
unfoldable pub split : ℕ → List ℕ → List (List ℕ)
split sep [] = [] ∷ []
split sep (c ∷ s) = let rest = split sep s in if c == sep then [] ∷ rest else cons_first c rest

unfoldable pub lines : List ℕ → List (List ℕ)
unfolding split
lines s = split 10 s

-- The ASCII white space of unicode.IsSpace.
abbrev is_space : ℕ → Bool
is_space c = c == 32 || (leb 9 c && leb c 13)

unfoldable trim_left : List ℕ → List ℕ
trim_left [] = []
trim_left (c ∷ s) = let rest = trim_left s in if is_space c then rest else c ∷ s

-- A trailing run of white space goes: a byte stays if it or a later one is no space.
abbrev keep_right : ℕ → List ℕ → List ℕ
keep_right c [] = if is_space c then [] else c ∷ []
keep_right c (d ∷ s) = c ∷ d ∷ s

unfoldable trim_right : List ℕ → List ℕ
trim_right [] = []
trim_right (c ∷ s) = keep_right c (trim_right s)

-- strings.TrimSpace(s)
unfoldable pub trim_space : List ℕ → List ℕ
unfolding trim_left trim_right
trim_space s = trim_left (trim_right s)

unfoldable equal : List ℕ → List ℕ → Bool
equal [] [] = true
equal [] (d ∷ t) = false
equal (c ∷ s) [] = false
equal (c ∷ s) (d ∷ t) = c == d && equal s t

-- strings.TrimSuffix(s, p)
unfoldable pub trim_suffix : List ℕ → List ℕ → List ℕ
unfolding equal
trim_suffix [] p = []
trim_suffix (c ∷ s) p = let rest = trim_suffix s p in if equal (c ∷ s) p then [] else c ∷ rest

-- A text with no separator in it is one part of a split.
unfoldable pub IsLine : ℕ → List ℕ → Type 0
IsLine sep [] = Unit {0}
IsLine sep (c ∷ s) = (c ≢ sep) × IsLine sep s

pub split-line :
    (sep : ℕ) (p s : List ℕ) → IsLine sep p → split sep (p ++ sep ∷ s) ≡ p ∷ split sep s
unfolding split IsLine
split-line sep [] s h = ground arith
split-line sep (c ∷ p) s h = ground (arith, split-line sep p s h.1)

pub lines-line : (p s : List ℕ) → IsLine 10 p → lines (p ++ 10 ∷ s) ≡ p ∷ lines s
unfolding lines
lines-line p s h = split-line 10 p s h
