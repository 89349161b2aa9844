-- ===== src/Ownership/ProviderId.antt =====
-- The provider id that stateApplyConfig and stateInstallFlatcar write, and what
-- robotServerIDFromProviderID reads back from one.
use cluster_api_provider_het.Prelude.{ℕ, ◌≤◌, ◌<◌, ◌≡◌, ◌∙◌, true, some, [], ◌∷◌, ◌++◌, arith, refl}
use cluster_api_provider_het.Text.{Text, text, has_prefix, drop_prefix, trim_prefix}
use cluster_api_provider_het.Text.Decimal.{atoi, itoa, atoi-itoa}
use cluster_api_provider_het.Ownership.{robot_server_id_from_provider_id, positive_id}

-- fmt.Sprintf("hetzner-robot://%d", serverID)
unfoldable pub provider_id : ℕ → Text
provider_id server_id = text "hetzner-robot://" ++ itoa server_id

has_prefix-append_self : (p s : Text) → has_prefix (p ++ s) p ≡ true
unfolding has_prefix
has_prefix-append_self [] s = refl
has_prefix-append_self (c ∷ p) s = ground (arith, has_prefix-append_self p s)

drop_prefix-append : (p s : Text) → drop_prefix (p ++ s) p ≡ s
unfolding drop_prefix
drop_prefix-append [] s = refl
drop_prefix-append (c ∷ p) s = drop_prefix-append p s

pub trim_prefix-append : (p s : Text) → trim_prefix (p ++ s) p ≡ s
unfolding trim_prefix
trim_prefix-append p s = rw has_prefix-append_self (drop_prefix-append p s)

robot_server_id_lem :
    (raw : Text)
    → has_prefix raw (text "hetzner-robot://") ≡ true
    → robot_server_id_from_provider_id (some raw)
      ≡ positive_id (atoi (trim_prefix raw (text "hetzner-robot://")))
unfolding robot_server_id_from_provider_id
robot_server_id_lem raw h = rw h

-- Reading the server id back from the provider id that provisioning writes gives that server, for
-- every positive id that a Go int holds.
pub robot_server_id-provider_id :
    (n : ℕ)
    → 0 < n
    → n ≤ 9223372036854775807
    → robot_server_id_from_provider_id (some (provider_id n)) ≡ some n
unfolding provider_id
robot_server_id-provider_id n p m =
    robot_server_id_lem _ (has_prefix-append_self (text "hetzner-robot://") (itoa n))
    ∙ (rw (trim_prefix-append, atoi-itoa n m) (ground arith))
