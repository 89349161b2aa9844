-- ===== src/Text.antt =====
-- Go strings as byte lists, and the functions of Go's `strings` package that the program calls:
-- ==, HasPrefix, TrimPrefix, TrimSuffix, Contains, ToLower (on ASCII letters), Split on a byte,
-- TrimSpace and the empty test. `text` gives a literal its bytes, and stays shut in proofs.
pub mod Equal
pub mod Contains
pub mod Decimal
mod Split
mod Sort
unfoldable pub use Split.{split, trim_space, trim_suffix, lines, IsLine}
unfoldable pub use Sort.{sort_strings, join}
pub use Split.{split-line, lines-line}
use Prim.Native.Char.{code}
use Prim.Native.String
use cluster_api_provider_het.Prelude.{
  ℕ, ◌+◌, String, Bool, true, false, ◌&&◌, ◌||◌, List, [], ◌∷◌, ◌++◌, leb, ◌==◌, if◌then◌else◌,
}

abbrev pub Text : Type 0
Text = List ℕ

unfoldable pub text : String → Text
text String.[] = []
text (String.◌∷◌ c s) = code c ∷ text s

-- s == ""
abbrev pub is_empty : Text → Bool
is_empty [] = true
is_empty (c ∷ s) = false

-- s == t
unfoldable pub text_eq : Text → Text → Bool
text_eq [] [] = true
text_eq [] (d ∷ t) = false
text_eq (c ∷ s) [] = false
text_eq (c ∷ s) (d ∷ t) = c == d && text_eq s t

-- strings.HasPrefix(s, p)
unfoldable pub has_prefix : Text → Text → Bool
has_prefix s [] = true
has_prefix [] (d ∷ p) = false
has_prefix (c ∷ s) (d ∷ p) = c == d && has_prefix s p

-- What follows a prefix of p's length.
unfoldable pub drop_prefix : Text → Text → Text
drop_prefix s [] = s
drop_prefix [] (d ∷ p) = []
drop_prefix (c ∷ s) (d ∷ p) = drop_prefix s p

-- strings.TrimPrefix(s, p)
unfoldable pub trim_prefix : Text → Text → Text
unfolding has_prefix drop_prefix
trim_prefix s p = if has_prefix s p then drop_prefix s p else s

-- strings.Contains(s, p)
unfoldable pub contains : Text → Text → Bool
unfolding has_prefix
contains [] p = has_prefix [] p
contains (c ∷ s) p = has_prefix (c ∷ s) p || contains s p

-- strings.ToLower(s), on ASCII letters
unfoldable pub to_lower : Text → Text
to_lower [] = []
to_lower (c ∷ s) = (if leb b'A' c && leb c b'Z' then c + 32 else c) ∷ to_lower s

-- The parts of a formatted message, joined.
unfoldable pub concat : List Text → Text
concat [] = []
concat (s ∷ l) = s ++ concat l
