-- ===== src/Ownership/Claimed.antt =====
-- The host and the world that a successful resolveHost leaves.
use mathlib.Core.List.{Memᴰ}
use mathlib.Core.Path.{subst₂}
use cluster_api_provider_het.Prelude.{
  ◌≡◌, ◌⊎◌, inl, inr, refl, sym, ◌∙◌, Bool, false, Option, none, some, List, [], ◌∷◌, arith,
  Bool-cases,
}
use cluster_api_provider_het.Text.{Text, is_empty}
use cluster_api_provider_het.Result.{ok, Result-cases}
use cluster_api_provider_het.Api.Host.{Host, HostState}
use cluster_api_provider_het.Api.Machine.{RobotMachine}
use cluster_api_provider_het.World.{
  World, Kube, find_host, put_host, select_hosts, get_host, list_hosts, patch_host,
}
use cluster_api_provider_het.World.Hosts.{find_host-is_at, IsUnique, select_hosts-stored}
use cluster_api_provider_het.Ownership.{
  host_is_claimed_by, current_host_consumer_ref, is_foreign, ensure_host_consumer_ref,
}
use cluster_api_provider_het.Ownership.References.{Takes, write-Takes, ensure-Takes}
use cluster_api_provider_het.Ownership.Claim.{
  with_host_ref, named, claimed_host, claim_candidate, recover_claim, resolve_by_name,
  first_claimed, first_available, resolve_by_selector, resolve_claimed, resolve_by_spec,
  resolve_host,
}

-- The machine may take the host: its consumer reference, which is consumerRef or, where there is
-- none, machineRef, names no other machine, or the host is Available and not in maintenance.
abbrev pub MayTake : RobotMachine → Host → Type 0
MayTake hrm g =
    (is_foreign (current_host_consumer_ref g) hrm ≡ false)
    ⊎ ((g.status.state ≡ HostState.available) × (g.spec.maintenance_mode ≡ false))

-- A successful resolve: h is taken, its name is recorded in the machine's status and nothing else
-- of the machine changes, and the host that stood there before could be taken.
pub record Resolves (w : World) (h : Host) (w' : World) : Type 0 where
  pub takes : Takes w.machine w h w'
  pub recorded : w'.machine ≡ with_host_ref h.name w.machine
  pub could_take :
      (g : Host) × (find_host h.namespace h.name w.hosts ≡ some g) × MayTake w.machine g

pub get_host-ok :
    (k : Kube) (ns n : Text) (w w' : World) (g : Host)
    → get_host k ns n w ≡ (ok g, w')
    → (w' ≡ w) × (find_host ns n w.hosts ≡ some g) × (g.namespace ≡ ns) × (g.name ≡ n)
unfolding get_host
get_host-ok k ns n w w' g e = ground (arith, find_host-is_at ns n w.hosts {h = g})

pub Takes-machine :
    (hrm : RobotMachine) (w w' : World) (h : Host) (m : RobotMachine)
    → Takes hrm w h w'
    → Takes hrm w h (record w' { machine = m })
Takes-machine hrm w w' h m t = record {
  owned = t.owned;
  local = t.local;
  written = t.written;
  quiet = t.quiet;
}

pub first_claimed-mem :
    (hrm : RobotMachine) (l : List Host) {g : Host} → first_claimed hrm l ≡ some g → Memᴰ g l
unfolding first_claimed
first_claimed-mem hrm [] e = cc
first_claimed-mem hrm (h ∷ l) {g} e = elim (Bool-cases (host_is_claimed_by h hrm)) [
  | inl t ↦ Memᴰ.head (ground arith)
  | inr f ↦ Memᴰ.tail (first_claimed-mem hrm l (rw f at e))
]

-- Taking over from an inversion of the parts of Resolves.
take-Resolves :
    (w w' : World) (g h : Host)
    → find_host g.namespace g.name w.hosts ≡ some g
    → MayTake w.machine g
    → h.namespace ≡ g.namespace
    → h.name ≡ g.name
    → w'.machine ≡ with_host_ref h.name w.machine
    → Takes w.machine w h w'
    → Resolves w h w'
take-Resolves w w' g h f t p q m k = record {
  takes = k;
  recorded = m;
  could_take = (g, rw (p, q) f, t);
}

module _ (w : World) (g : Host) (f : find_host g.namespace g.name w.hosts ≡ some g)
    (l : g.namespace ≡ w.machine.namespace) where
  claimed-Resolves :
      g.status.state ≡ HostState.available
      → g.spec.maintenance_mode ≡ false
      → let h = claimed_host w.machine g in
        Resolves w h
          (record w { hosts = put_host h w.hosts; machine = with_host_ref g.name w.machine })
  unfolding claimed_host
  claimed-Resolves a m =
      let h = claimed_host w.machine g in
      take-Resolves w
        (record w { hosts = put_host h w.hosts; machine = with_host_ref g.name w.machine }) g h f
        (inr (a, m)) refl refl refl
        (Takes-machine w.machine w (record w { hosts = put_host h w.hosts }) h
          (with_host_ref g.name w.machine)
          (write-Takes w.machine w g f l h refl refl (record { consumer = refl; legacy = refl })))

module _ (k : Kube) (w w' : World) (h : Host) where
  claim_candidate-cases :
      (name : Text)
      → claim_candidate k w.machine name w ≡ (ok h, w')
      → (g : Host) × (find_host w.machine.namespace name w.hosts ≡ some g)
        × (g.status.state ≡ HostState.available)
        × (g.spec.maintenance_mode ≡ false)
        × (h ≡ claimed_host w.machine g)
        × (w' ≡ record w {
          hosts = put_host (claimed_host w.machine g) w.hosts;
          machine = with_host_ref name w.machine;
        })
  unfolding claim_candidate get_host patch_host
  claim_candidate-cases name e = ground arith

  pub claim_candidate-Resolves :
      (name : Text) → claim_candidate k w.machine name w ≡ (ok h, w') → Resolves w h w'
  claim_candidate-Resolves name e =
      let (g, f, a, m, p, q) = claim_candidate-cases name e in
      let (n, c) = find_host-is_at w.machine.namespace name w.hosts f in
      let q' : w' ≡ record w {
        hosts = put_host (claimed_host w.machine g) w.hosts;
        machine = with_host_ref g.name w.machine;
      } =
        rw c q in
      subst₂ (Resolves w) (sym p) (sym q') (claimed-Resolves w g (rw (n, c) f) n a m)

  pub recover_claim-Resolves :
      (g : Host)
      → find_host g.namespace g.name w.hosts ≡ some g
      → g.namespace ≡ w.machine.namespace
      → recover_claim k w.machine g w ≡ (ok h, w')
      → Resolves w h w'
  unfolding recover_claim
  recover_claim-Resolves g f l e =
      let (t, m, n, x) =
        ensure-Takes w.machine (record w { machine = with_host_ref g.name w.machine }) g f l k w' h
          e in
      take-Resolves w w' g h f (inl x) (t.local ∙ sym l) n (rw n m)
        (record { owned = t.owned; local = t.local; written = t.written; quiet = t.quiet })

  resolve_claimed-cases :
      resolve_claimed k w.machine w ≡ (ok h, w')
      → (g : Host) × (find_host w.machine.namespace w.machine.status.host_ref w.hosts ≡ some g)
        × (ensure_host_consumer_ref k g w.machine w ≡ (ok h, w'))
  unfolding resolve_claimed get_host
  resolve_claimed-cases e = ground arith

  pub resolve_claimed-Resolves : resolve_claimed k w.machine w ≡ (ok h, w') → Resolves w h w'
  resolve_claimed-Resolves e =
      let (g, f, d) = resolve_claimed-cases e in
      let (n, c) = find_host-is_at w.machine.namespace w.machine.status.host_ref w.hosts f in
      let (t, m, q, x) = ensure-Takes w.machine w g (rw (n, c) f) n k w' h d in
      take-Resolves w w' g h (rw (n, c) f) (inl x) (t.local ∙ sym n) q (rw (q, c) m) t

  resolve_by_name-cases :
      (name : Text)
      → resolve_by_name k w.machine name w ≡ (ok h, w')
      → (g : Host) × (find_host w.machine.namespace name w.hosts ≡ some g)
        × ((recover_claim k w.machine g w ≡ (ok h, w'))
            ⊎ (claim_candidate k w.machine name w ≡ (ok h, w')))
  unfolding resolve_by_name get_host
  resolve_by_name-cases name e = ground arith

  pub resolve_by_name-Resolves :
      (name : Text) → resolve_by_name k w.machine name w ≡ (ok h, w') → Resolves w h w'
  resolve_by_name-Resolves name e =
      let (g, f, c) = resolve_by_name-cases name e in
      let (n, x) = find_host-is_at w.machine.namespace name w.hosts f in
      elim c [
        | inl r ↦ recover_claim-Resolves g (rw (n, x) f) n r
        | inr r ↦ claim_candidate-Resolves name r
      ]

  resolve_by_selector-cases :
      (selector : Text)
      → resolve_by_selector k w.machine selector w ≡ (ok h, w')
      → (p : Host → Bool) × (((g : Host) × (first_claimed w.machine
                (select_hosts w.machine.namespace p w.hosts)
              ≡ some g)
            × (recover_claim k w.machine g w ≡ (ok h, w')))
          ⊎ (claim_candidate k w.machine
                (first_available (select_hosts w.machine.namespace p w.hosts))
                w
              ≡ (ok h, w')))
  unfolding resolve_by_selector list_hosts
  resolve_by_selector-cases selector e = elim (Result-cases (k.label_selector selector)) [
    | inl (p, t) ↦ (p, ground arith)
    | inr (m, t) ↦ absurd (ground arith)
  ]

  pub resolve_by_selector-Resolves :
      IsUnique w.hosts
      → (selector : Text) → resolve_by_selector k w.machine selector w ≡ (ok h, w')
      → Resolves w h w'
  resolve_by_selector-Resolves u selector e =
      let (p, c) = resolve_by_selector-cases selector e in
      elim c [
        | inl (g, f, r) ↦
            let (l, s) =
              select_hosts-stored w.machine.namespace p w.hosts u
                (first_claimed-mem w.machine (select_hosts w.machine.namespace p w.hosts) f) in
            recover_claim-Resolves g s l r
        | inr r ↦ claim_candidate-Resolves _ r
      ]

  resolve_by_spec-Resolves :
      IsUnique w.hosts
      → (name selector : Option Text) → resolve_by_spec k w.machine name selector w ≡ (ok h, w')
      → Resolves w h w'
  unfolding resolve_by_spec
  resolve_by_spec-Resolves u (some name) selector e = resolve_by_name-Resolves name e
  resolve_by_spec-Resolves u none (some selector) e = resolve_by_selector-Resolves u selector e
  resolve_by_spec-Resolves u none none e = cc

  -- In a store with unique keys, a resolveHost that succeeds takes the host for the machine: both
  -- references of the returned host name the machine, the store holds that host at its key, no
  -- other key of the store changes, no call leaves for a server, the machine's status records the host's name
  -- and the machine is otherwise as it was; and of the host that the store held before, either the
  -- consumer reference (consumerRef or, where there was none, machineRef) named no other machine,
  -- or the host was Available and not in maintenance.
  pub resolve_host-Resolves : IsUnique w.hosts → resolve_host k w ≡ (ok h, w') → Resolves w h w'
  unfolding resolve_host
  resolve_host-Resolves u e = elim (Bool-cases (is_empty w.machine.status.host_ref)) [
    | inl t ↦
        resolve_by_spec-Resolves u (named w.machine.spec.host_ref) w.machine.spec.host_selector
          (rw t at e)
    | inr f ↦ resolve_claimed-Resolves (rw f at e)
  ]
