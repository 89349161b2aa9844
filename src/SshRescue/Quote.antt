-- ===== src/SshRescue/Quote.antt =====
-- shellQuote, against the way a POSIX shell reads a word.
use cluster_api_provider_het.Prelude.{
  ℕ, ◌≡◌, refl, ap, false, Option, none, some, [], ◌∷◌, ◌++◌, ◌==◌, if◌then◌else◌, Bool-cases, inl,
  inr, sym, ==_iff,
}
use cluster_api_provider_het.Text.{Text}

-- strings.ReplaceAll(s, "'", "'\\''"): a quote closes the string, stands escaped, and opens it again
unfoldable escape_quotes : Text → Text
escape_quotes [] = []
escape_quotes (c ∷ s) =
    let rest = escape_quotes s in if c == 39 then 39 ∷ 92 ∷ 39 ∷ 39 ∷ rest else c ∷ rest

unfoldable pub shell_quote : Text → Text
unfolding escape_quotes
shell_quote s = 39 ∷ escape_quotes s ++ 39 ∷ []

-- The quoting state of a shell that reads a word.
pub data Mode : Type 0 where
  bare single_quoted escaped : Mode

abbrev cons_word : ℕ → Option Text → Option Text
cons_word c none = none
cons_word c (some s) = some (c ∷ s)

-- The word that a shell reads from a text of quotes, escapes and single-quoted strings, and `none`
-- at an unquoted byte that a shell might interpret or at an open quote.
unfoldable pub read_word : Mode → Text → Option Text
read_word bare [] = some []
read_word bare (c ∷ s) =
    let quoted = read_word single_quoted s in
    let escape = read_word escaped s in if c == 39 then quoted else if c == 92 then escape else none
read_word single_quoted [] = none
read_word single_quoted (c ∷ s) =
    let close = read_word bare s in
    let rest = read_word single_quoted s in if c == 39 then close else cons_word c rest
read_word escaped [] = none
read_word escaped (c ∷ s) = let rest = read_word bare s in cons_word c rest

read_word-escaped_quote :
    (r : Text)
    → read_word single_quoted (39 ∷ 92 ∷ 39 ∷ 39 ∷ r) ≡ cons_word 39 (read_word single_quoted r)
unfolding read_word
read_word-escaped_quote r = refl

read_word-plain :
    (c : ℕ) (r : Text)
    → (c == 39) ≡ false
    → read_word single_quoted (c ∷ r) ≡ cons_word c (read_word single_quoted r)
unfolding read_word
read_word-plain c r n = rw n

read_word-escape_quotes : (s : Text) → read_word single_quoted (escape_quotes s ++ 39 ∷ []) ≡ some s
unfolding escape_quotes
read_word-escape_quotes [] = unfold read_word in refl
read_word-escape_quotes (c ∷ s) = elim (Bool-cases (c == 39)) [
  | inl q ↦
      rw (q, read_word-escaped_quote, read_word-escape_quotes s)
        (ap (λ (d : ℕ). some (d ∷ s)) (sym ((==_iff c 39).0 q)))
  | inr n ↦ rw (n, read_word-plain c _ n, read_word-escape_quotes s)
]

-- Whatever bytes a string holds, a shell reads its quoted form as one word that is the string, and
-- meets no byte outside quotes that it would interpret.
pub read_word-shell_quote : (s : Text) → read_word bare (shell_quote s) ≡ some s
unfolding shell_quote read_word
read_word-shell_quote s = read_word-escape_quotes s
