-- ===== src/Provision/Permanent.antt =====
-- isPermanentError under the wrapping of errors.
use cluster_api_provider_het.Prelude.{◌≡◌, true, ◌++◌, arith, ap, ◌∙◌}
use cluster_api_provider_het.Text.{Text, text, contains, to_lower}
use cluster_api_provider_het.Text.Contains.{
  contains-append_right, contains-append_left, to_lower-append,
}
use cluster_api_provider_het.Provision.Retry.{is_permanent_text, is_permanent_error}

contains-within :
    (before s after p : Text) → contains s p ≡ true → contains (before ++ (s ++ after)) p ≡ true
contains-within before s after p h =
    contains-append_left before (s ++ after) p (contains-append_right s after p h)

is_permanent_text-within :
    (before s after : Text)
    → is_permanent_text s ≡ true
    → is_permanent_text (before ++ (s ++ after)) ≡ true
unfolding is_permanent_text
is_permanent_text-within before s after h = ground (
  arith,
  contains-within before s after (text "unmarshal"),
  contains-within before s after (text "invalid"),
  contains-within before s after (text "secret"),
  contains-within before s after (text "not found"),
  contains-within before s after (text "must specify either"),
)

-- An error that is permanent stays permanent when text is put around its message, as %w does.
pub is_permanent_error-wrapped :
    (before e after : Text)
    → is_permanent_error e ≡ true
    → is_permanent_error (before ++ (e ++ after)) ≡ true
unfolding is_permanent_error
is_permanent_error-wrapped before e after h =
    ap is_permanent_text (
      to_lower-append before (e ++ after)
      ∙ ap (λ t. to_lower before ++ t) (to_lower-append e after))
    ∙ is_permanent_text-within (to_lower before) (to_lower e) (to_lower after) h
