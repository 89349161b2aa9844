-- ===== src/World/Hosts.antt =====
-- Reading the store of hosts after a write.
use mathlib.Core.List.{Memᴰ}
use mathlib.Core.List.Memᴰ
use cluster_api_provider_het.Prelude.{
  Bool-cases, inl, inr, ◌≡◌, Bool, true, none, some, List, [], ◌∷◌, arith, ◌&&◌, if◌then◌else◌,
}
use cluster_api_provider_het.Text.{Text, text_eq}
use cluster_api_provider_het.Text.Equal.{text_eq_iff}
use cluster_api_provider_het.Api.Host.{Host}
use cluster_api_provider_het.World.{is_at, find_host, put_host, select_hosts}

-- An object that is found is where it was looked for.
pub find_host-is_at :
    (ns n : Text) (l : List Host) {h : Host}
    → find_host ns n l ≡ some h
    → (h.namespace ≡ ns) × (h.name ≡ n)
unfolding find_host
find_host-is_at ns n [] e = cc
find_host-is_at ns n (g ∷ l) {h} e =
    ground (arith, text_eq_iff g.namespace ns, text_eq_iff g.name n, find_host-is_at ns n l {h = h})

-- The object that was there is replaced, and no other one changes.
pub find_host-put_host :
    (h : Host) (l : List Host) (ns n : Text) {g : Host}
    → find_host h.namespace h.name l ≡ some g
    → find_host ns n (put_host h l) ≡ (if is_at ns n h then some h else find_host ns n l)
unfolding find_host put_host
find_host-put_host h [] ns n e = cc
find_host-put_host h (f ∷ l) ns n {g} e = ground (
  arith,
  text_eq_iff f.namespace h.namespace,
  text_eq_iff f.name h.name,
  text_eq_iff f.namespace ns,
  text_eq_iff f.name n,
  text_eq_iff h.namespace ns,
  text_eq_iff h.name n,
  find_host-put_host h l ns n {g = g},
)

-- No two objects of the store have the same key.
abbrev pub IsUnique : List Host → Type 0
IsUnique [] = Unit {0}
IsUnique (h ∷ l) = (find_host h.namespace h.name l ≡ none) × IsUnique l

find_host_self : (g : Host) (l : List Host) → find_host g.namespace g.name (g ∷ l) ≡ some g
unfolding find_host
find_host_self g l = ground (arith, text_eq_iff g.namespace g.namespace, text_eq_iff g.name g.name)

-- A host that a List returns is in the namespace, and is what a Get of its name returns.
find_host-skip :
    (g h : Host) (l : List Host)
    → find_host g.namespace g.name l ≡ none
    → find_host h.namespace h.name l ≡ some h
    → find_host h.namespace h.name (g ∷ l) ≡ some h
unfolding find_host
find_host-skip g h l e f =
    ground (arith, text_eq_iff g.namespace h.namespace, text_eq_iff g.name h.name)

pub select_hosts-stored :
    (ns : Text) (p : Host → Bool) (l : List Host) {h : Host}
    → IsUnique l
    → Memᴰ h (select_hosts ns p l)
    → (h.namespace ≡ ns) × (find_host h.namespace h.name l ≡ some h)
unfolding select_hosts
select_hosts-stored ns p [] u m = elim m [ ]
select_hosts-stored ns p (g ∷ l) {h} (n, u) m = elim (Bool-cases (text_eq g.namespace ns && p g)) [
  | inl t ↦ elim (Memᴰ.cases_cons (rw t at m)) [
    | inl e ↦ rw e (here g.namespace g.name t, find_host_self g l)
    | inr m' ↦ later (select_hosts-stored ns p l u m')
  ]
  | inr f ↦ later (select_hosts-stored ns p l u (rw f at m))
]
  where
    here : (a b : Text) → (text_eq g.namespace ns && p g) ≡ true → g.namespace ≡ ns
    here a b t = ground (arith, text_eq_iff g.namespace ns)

    later :
        (h.namespace ≡ ns) × (find_host h.namespace h.name l ≡ some h)
        → (h.namespace ≡ ns) × (find_host h.namespace h.name (g ∷ l) ≡ some h)
    later (a, b) = (a, find_host-skip g h l n b)
