-- ===== src/Ownership/Adopted.antt =====
-- The host and the world that a successful backfillProvisionedHostClaim leaves.
use mathlib.Core.List.Memᴰ
use mathlib.Core.List.{Memᴰ}
use mathlib.Core.Path.{subst, subst₂}
use cluster_api_provider_het.Prelude.{
  ℕ, ◌≡◌, ◌==◌, refl, sym, ap, Bool, true, false, Option, none, some, List, [], ◌∷◌, arith,
  Bool-cases, Option-cases, inl, inr, ==_iff,
}
use cluster_api_provider_het.Text.{Text}
use cluster_api_provider_het.Result.{ok, Result-cases}
use cluster_api_provider_het.Api.Host.{Host}
use cluster_api_provider_het.World.{
  World, Kube, find_host, put_host, get_host, list_hosts, patch_host, select_hosts,
}
use cluster_api_provider_het.World.Hosts.{IsUnique, select_hosts-stored}
use cluster_api_provider_het.Ownership.{robot_server_id_from_provider_id, blocking_host_owner_ref}
use cluster_api_provider_het.Ownership.References.{Takes, write-Takes}
use cluster_api_provider_het.Ownership.Claim.{with_host_ref, named, set_host_ref}
use cluster_api_provider_het.Ownership.Claimed.{get_host-ok, Takes-machine}
use cluster_api_provider_het.Ownership.Adoption.{
  hosts_of_server, only_host, adoption_host_by_spec, resolve_provisioned_adoption_host,
  adopted_host, adoption_guard, adopt_host, backfill_provisioned_host_claim,
}

hosts_of_server-mem : (id : ℕ) (l : List Host) {g : Host} → Memᴰ g (hosts_of_server id l) → Memᴰ g l
unfolding hosts_of_server
hosts_of_server-mem id [] m = elim m [ ]
hosts_of_server-mem id (h ∷ l) m = elim (Bool-cases (h.spec.server_id == id)) [
  | inl t ↦ elim (Memᴰ.cases_cons (rw t at m)) [
    | inl e ↦ Memᴰ.head e
    | inr n ↦ Memᴰ.tail (hosts_of_server-mem id l n)
  ]
  | inr f ↦ Memᴰ.tail (hosts_of_server-mem id l (rw f at m))
]

only_host-ok : (id : ℕ) (l : List Host) {g : Host} → only_host id l ≡ ok g → Memᴰ g l
unfolding only_host
only_host-ok id [] h = cc
only_host-ok id (x ∷ []) h = Memᴰ.head (ground arith)
only_host-ok id (x ∷ y ∷ l) h = cc

module _ (k : Kube) (id : ℕ) (w w' : World) (g : Host) where
  -- A host that was found is in the machine's namespace and in the store, which is as it was.
  abbrev IsFound : Type 0
  IsFound =
      (w' ≡ w)
      × (find_host g.namespace g.name w.hosts ≡ some g)
      × (g.namespace ≡ w.machine.namespace)

  selector_parts :
      (selector : Text)
      → adoption_host_by_spec k w.machine id none (some selector) w ≡ (ok g, w')
      → (p : Host → Bool) × (only_host id
            (hosts_of_server id (select_hosts w.machine.namespace p w.hosts))
          ≡ ok g)
        × (w' ≡ w)
  unfolding adoption_host_by_spec list_hosts
  selector_parts selector h = elim (Result-cases (k.label_selector selector)) [
    | inr (e, bad) ↦ absurd (ground arith)
    | inl (p, good) ↦ (p, ground arith, ground arith)
  ]

  name_parts :
      (name : Text) (selector : Option Text)
      → adoption_host_by_spec k w.machine id (some name) selector w ≡ (ok g, w')
      → get_host k w.machine.namespace name w ≡ (ok g, w')
  unfolding adoption_host_by_spec get_host
  name_parts name selector h = ground arith

  by_spec-IsFound :
      IsUnique w.hosts
      → (name selector : Option Text)
      → adoption_host_by_spec k w.machine id name selector w ≡ (ok g, w')
      → IsFound
  by_spec-IsFound u (some name) selector h =
      let (same, f, n, x) =
        get_host-ok k w.machine.namespace name w w' g (name_parts name selector h) in
      (same, subst₂ (λ a b. find_host a b w.hosts ≡ some g) (sym n) (sym x) f, n)
  by_spec-IsFound u none (some selector) h =
      let (p, one, same) = selector_parts selector h in
      let (n, f) =
        select_hosts-stored w.machine.namespace p w.hosts u
          (hosts_of_server-mem id _ (only_host-ok id _ one)) in
      (same, f, n)
  by_spec-IsFound u none none h = absurd (unfold adoption_host_by_spec in cc)

-- A successful adoption: the host at `g` is the server that the machine's provider id names, no other
-- machine owns it, and it becomes the machine's, provisioned and clean.
pub record Adopts (k : Kube) (w w' : World) : Type 0 where
  pub id : ℕ
  pub host : Host
  pub provided : robot_server_id_from_provider_id w.machine.spec.provider_id ≡ some id
  pub stored : find_host host.namespace host.name w.hosts ≡ some host
  pub same_server : host.spec.server_id ≡ id
  pub in_service : host.spec.maintenance_mode ≡ false
  pub unowned : blocking_host_owner_ref k host w.machine ≡ ok none
  pub takes : Takes w.machine w (adopted_host w.machine host) w'
  pub recorded : w'.machine ≡ with_host_ref host.name w.machine

module _ (k : Kube) (w w' : World) where
  guard_parts :
      (id : ℕ) (g : Host)
      → adoption_guard k w.machine id g ≡ ok tt
      → (g.spec.maintenance_mode ≡ false)
        × (g.spec.server_id ≡ id)
        × (blocking_host_owner_ref k g w.machine ≡ ok none)
  unfolding adoption_guard
  guard_parts id g h = elim (Result-cases (blocking_host_owner_ref k g w.machine)) [
    | inr (e, bad) ↦ absurd (ground (arith, ==_iff g.spec.server_id id))
    | inl (none, good) ↦ ground (arith, good, ==_iff g.spec.server_id id)
    | inl (some ref, good) ↦ absurd (ground (arith, good, ==_iff g.spec.server_id id))
  ]

  adopt_parts :
      (id : ℕ)
      → adopt_host k w.machine id w ≡ (ok true, w')
      → (g : Host) × (v : World) × (resolve_provisioned_adoption_host k w.machine id w ≡ (ok g, v))
        × (adoption_guard k w.machine id g ≡ ok tt)
        × (w' ≡ record v {
          hosts = put_host (adopted_host w.machine g) v.hosts;
          machine = with_host_ref g.name v.machine;
        })
  unfolding adopt_host patch_host set_host_ref
  adopt_parts id h =
      let found = resolve_provisioned_adoption_host k w.machine id w in
      elim (Result-cases found.0) [
        | inr (e, bad) ↦ absurd (ground arith)
        | inl (g, good) ↦ (g, found.1, ground arith, ground arith, ground arith)
      ]

  claim_parts :
      backfill_provisioned_host_claim k w ≡ (ok true, w')
      → (id : ℕ) × (robot_server_id_from_provider_id w.machine.spec.provider_id ≡ some id)
        × (adopt_host k w.machine id w ≡ (ok true, w'))
  unfolding backfill_provisioned_host_claim
  claim_parts h =
      elim (Option-cases (robot_server_id_from_provider_id w.machine.spec.provider_id)) [
        | inl no_id ↦ absurd (ground (arith, no_id))
        | inr (id, has_id) ↦ (id, has_id, ground (arith, has_id))
      ]

found_parts :
    (k : Kube) (w v : World) (id : ℕ) (g : Host)
    → IsUnique w.hosts
    → resolve_provisioned_adoption_host k w.machine id w ≡ (ok g, v)
    → IsFound k id w v g
unfolding resolve_provisioned_adoption_host
found_parts k w v id g u h =
    by_spec-IsFound k id w v g u (named w.machine.spec.host_ref) w.machine.spec.host_selector h

adopted-Takes :
    (w : World) (g : Host)
    → find_host g.namespace g.name w.hosts ≡ some g
    → g.namespace ≡ w.machine.namespace
    → let h = adopted_host w.machine g in
      Takes w.machine w h
        (record w { hosts = put_host h w.hosts; machine = with_host_ref g.name w.machine })
unfolding adopted_host
adopted-Takes w g f l =
    let h = adopted_host w.machine g in
    Takes-machine w.machine w (record w { hosts = put_host h w.hosts }) h
      (with_host_ref g.name w.machine)
      (write-Takes w.machine w g f l h refl refl (record { consumer = refl; legacy = refl }))

-- In a store with unique keys, a backfill of the ownership of a provisioned machine that succeeds
-- adopts one host: it is the server of the machine's provider id, it is not in maintenance, no
-- other machine owns it, both of its references name the machine afterwards, no other key of the
-- store changes, no call leaves for a server, and the machine's status records the host's name.
pub backfill-Adopts :
    (k : Kube) (w w' : World)
    → IsUnique w.hosts
    → backfill_provisioned_host_claim k w ≡ (ok true, w')
    → Adopts k w w'
backfill-Adopts k w w' u h =
    let (id, provided, a) = claim_parts k w w' h in
    let (g, v, found, guard, made) = adopt_parts k w w' id a in
    let (same, stored, local) = found_parts k w v id g u found in
    let (service, server, unowned) = guard_parts k w w' id g guard in
    let made' : w' ≡ record w {
      hosts = put_host (adopted_host w.machine g) w.hosts;
      machine = with_host_ref g.name w.machine;
    } =
      subst
        (λ x. w' ≡ record x {
          hosts = put_host (adopted_host w.machine g) x.hosts;
          machine = with_host_ref g.name x.machine;
        })
        same made in
    record {
      id = id;
      host = g;
      provided = provided;
      stored = stored;
      same_server = server;
      in_service = service;
      unowned = unowned;
      takes =
          subst (Takes w.machine w (adopted_host w.machine g)) (sym made')
            (adopted-Takes w g stored local);
      recorded = ap (λ (x : World). x.machine) made';
    }
