-- ===== src/Provision/Retry.antt =====
-- computeBackoff and isPermanentError.
use cluster_api_provider_het.Prelude.{ℕ, ◌-◌, ◌*◌, ◌^◌, Bool, true, ◌&&◌, ◌||◌, if◌then◌else◌, ltb}
use cluster_api_provider_het.Text.{Text, text, contains, to_lower}

abbrev pub five_minutes : ℕ
five_minutes = 300000000000

-- The exponent, capped at 10; Go's retryCount - 1 below 0 becomes 0.
abbrev pub exponent : ℕ → ℕ
exponent retry_count = if ltb 10 (retry_count - 1) then 10 else retry_count - 1

-- computeBackoff. The power of 2 is exact as a float64, and the product is below 2^63.
unfoldable pub compute_backoff : ℕ → ℕ
compute_backoff retry_count =
    let backoff = 30000000000 * 2 ^ exponent retry_count in
    if ltb five_minutes backoff then five_minutes else backoff

-- isPermanentError, on the lower-case text of the error
unfoldable pub is_permanent_text : Text → Bool
is_permanent_text msg =
    if contains msg (text "unmarshal") || contains msg (text "invalid")
    then true
    else if contains msg (text "secret") && contains msg (text "not found")
    then true
    else contains msg (text "must specify either")

-- isPermanentError, on the text of an error that is not nil
unfoldable pub is_permanent_error : Text → Bool
unfolding is_permanent_text
is_permanent_error e = is_permanent_text (to_lower e)
