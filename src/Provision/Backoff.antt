-- ===== src/Provision/Backoff.antt =====
-- The values of computeBackoff.
use cluster_api_provider_het.Prelude.{
  ℕ, zero, suc, ◌-◌, ◌*◌, ◌^◌, ◌≤◌, ◌<◌, ◌≡◌, refl, ap, sym, ◌∙◌, arith, ltb, if◌then◌else◌,
  Bool-cases, inl, inr,
}
use cluster_api_provider_het.Provision.Retry.{compute_backoff, five_minutes}

-- 30 s * 2 ^ n, capped at 5 minutes, without a cap of the exponent.
abbrev pub capped : ℕ → ℕ
capped n = if ltb five_minutes (30000000000 * 2 ^ n) then five_minutes else 30000000000 * 2 ^ n

power_pos : (n : ℕ) → 1 ≤ 2 ^ n
power_pos zero = omega arith
power_pos (suc n) = omega (arith, power_pos n)

large_power : (n : ℕ) → 16 ≤ 2 ^ suc (suc (suc (suc n)))
large_power n = omega (arith, power_pos n)

-- The backoffs up to the cap.
table : ℕ → ℕ
table zero = 30000000000
table (suc zero) = 60000000000
table (suc (suc zero)) = 120000000000
table (suc (suc (suc zero))) = 240000000000
table (suc (suc (suc (suc n)))) = five_minutes

capped-table : (n : ℕ) → capped n ≡ table n
unfolding table
capped-table zero = refl
capped-table (suc zero) = refl
capped-table (suc (suc zero)) = refl
capped-table (suc (suc (suc zero))) = refl
capped-table (suc (suc (suc (suc n)))) = ground (arith, large_power n)

table-large : (n : ℕ) → 10 < n → table n ≡ five_minutes
unfolding table
table-large n h = ground arith

compute_backoff-table : (n : ℕ) → compute_backoff n ≡ table (n - 1)
unfolding compute_backoff
compute_backoff-table n = elim (Bool-cases (ltb 10 (n - 1))) [
  | inl large ↦ rw large (sym (table-large (n - 1) (ground arith)))
  | inr small ↦ rw small (capped-table (n - 1))
]

-- Behind n + 1 retries the backoff is 30 seconds times 2 ^ n, or 5 minutes where that is more; the
-- cap of the exponent changes no result.
pub compute_backoff-exact : (n : ℕ) → compute_backoff (suc n) ≡ capped n
compute_backoff-exact n =
    compute_backoff-table (suc n) ∙ ap table (omega arith) ∙ sym (capped-table n)
