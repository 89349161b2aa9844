-- ===== src/Text/Contains.antt =====
-- Parts and prefixes of texts that are extended.
use cluster_api_provider_het.Prelude.{◌≡◌, refl, true, [], ◌∷◌, ◌++◌, arith}
use cluster_api_provider_het.Text.{Text, has_prefix, contains, to_lower}

pub has_prefix-append : (s t p : Text) → has_prefix s p ≡ true → has_prefix (s ++ t) p ≡ true
unfolding has_prefix
has_prefix-append s t [] h = ground arith
has_prefix-append [] t (d ∷ p) h = cc
has_prefix-append (c ∷ s) t (d ∷ p) h = ground (arith, has_prefix-append s t p)

pub contains-append_right : (s t p : Text) → contains s p ≡ true → contains (s ++ t) p ≡ true
unfolding contains
contains-append_right [] [] p h = h
contains-append_right [] (d ∷ t) p h = ground (arith, has_prefix-append [] (d ∷ t) p)
contains-append_right (c ∷ s) t p h =
    ground (arith, has_prefix-append (c ∷ s) t p, contains-append_right s t p)

pub contains-append_left : (s t p : Text) → contains t p ≡ true → contains (s ++ t) p ≡ true
unfolding contains
contains-append_left [] t p h = h
contains-append_left (c ∷ s) t p h = ground (arith, contains-append_left s t p)

pub to_lower-append : (s t : Text) → to_lower (s ++ t) ≡ to_lower s ++ to_lower t
unfolding to_lower
to_lower-append [] t = refl
to_lower-append (c ∷ s) t = ground (arith, to_lower-append s t)
