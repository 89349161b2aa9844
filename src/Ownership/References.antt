-- ===== src/Ownership/References.antt =====
-- What taking a host into ownership does to the store of hosts.
use cluster_api_provider_het.Prelude.{
  ◌≡◌, ◌⊎◌, ◌↔◌, inl, inr, refl, ap, ◌∙◌, true, false, Option, none, some, List, arith, Bool-cases,
  if◌then◌else◌,
}
use cluster_api_provider_het.Text.{Text, text_eq}
use cluster_api_provider_het.Text.Equal.{text_eq_iff}
use cluster_api_provider_het.Result.{ok}
use cluster_api_provider_het.Api.Host.{Host, MachineReference}
use cluster_api_provider_het.Api.Machine.{RobotMachine}
use cluster_api_provider_het.World.{World, Kube, is_at, find_host, put_host, patch_host}
use cluster_api_provider_het.World.Hosts.{find_host-put_host}
use cluster_api_provider_het.Ownership.{
  machine_reference_for, machine_reference_matches, current_host_consumer_ref, is_foreign,
  set_host_consumer_ref, ensure_host_consumer_ref,
}

-- Both references of the host name the machine.
pub record Owns (hrm : RobotMachine) (h : Host) : Type 0 where
  pub consumer : h.status.consumer_ref ≡ some (machine_reference_for hrm)
  pub legacy : h.status.machine_ref ≡ some (machine_reference_for hrm)

-- The step from `w` to `w'` takes h for the machine: h is what the store holds at its key, every
-- other key holds what it held, and no call leaves.
pub record Takes (hrm : RobotMachine) (w : World) (h : Host) (w' : World) : Type 0 where
  pub owned : Owns hrm h
  pub local : h.namespace ≡ hrm.namespace
  pub written :
      (ns n : Text)
      → find_host ns n w'.hosts ≡ (if is_at ns n h then some h else find_host ns n w.hosts)
  pub quiet : w'.calls ≡ w.calls

pub matches-eq :
    (ref : Option MachineReference) (hrm : RobotMachine)
    → machine_reference_matches ref hrm ≡ true
    → ref ≡ some (machine_reference_for hrm)
unfolding machine_reference_matches machine_reference_for
matches-eq none hrm h = cc
matches-eq (some ref) hrm h =
    ground (arith, text_eq_iff ref.name hrm.name, text_eq_iff ref.namespace hrm.namespace)

-- What is stored at g's key is g, whether or not it is written again.
put_host_self :
    (g : Host) (l : List Host)
    → find_host g.namespace g.name l ≡ some g
    → (ns n : Text) → find_host ns n l ≡ (if is_at ns n g then some g else find_host ns n l)
put_host_self g l f ns n = elim (Bool-cases (is_at ns n g)) [
  | inl a ↦ rw a (at_key (text_eq_iff g.namespace ns) (text_eq_iff g.name n) a)
  | inr b ↦ rw b
]
  where
    at_key :
        (text_eq g.namespace ns ≡ true) ↔ (g.namespace ≡ ns)
        → (text_eq g.name n ≡ true) ↔ (g.name ≡ n)
        → is_at ns n g ≡ true
        → find_host ns n l ≡ some g
    at_key p q a = ground arith

-- A successful patch writes the object and leaves all else.
pub patch_host-ok :
    (k : Kube) (m n : Text) (h : Host) (w w' : World) (u : Unit {0})
    → patch_host k m n h w ≡ (ok u, w')
    → w' ≡ record w { hosts = put_host h w.hosts }
unfolding patch_host
patch_host-ok k m n h w w' u e = ground arith

ensure-cases :
    (k : Kube) (g : Host) (hrm : RobotMachine) (w w' : World) (h : Host)
    → ensure_host_consumer_ref k g hrm w ≡ (ok h, w')
    → (is_foreign (current_host_consumer_ref g) hrm ≡ false)
      × (((h ≡ g)
            × (w' ≡ w)
            × (machine_reference_matches g.status.consumer_ref hrm ≡ true)
            × (machine_reference_matches g.status.machine_ref hrm ≡ true))
          ⊎ ((h ≡ set_host_consumer_ref g (machine_reference_for hrm))
              × (w' ≡ record w { hosts = put_host h w.hosts })))
unfolding ensure_host_consumer_ref patch_host
ensure-cases k g hrm w w' h e = ground arith

module _ (hrm : RobotMachine) (w : World) (g : Host)
    (f : find_host g.namespace g.name w.hosts ≡ some g) (l : g.namespace ≡ hrm.namespace) where
  keep-Takes :
      machine_reference_matches g.status.consumer_ref hrm ≡ true
      → machine_reference_matches g.status.machine_ref hrm ≡ true
      → Takes hrm w g w
  keep-Takes c m = record {
    owned = record { consumer = matches-eq _ hrm c; legacy = matches-eq _ hrm m };
    local = l;
    written = put_host_self g w.hosts f;
    quiet = refl;
  }

  -- Any new version of g with both references of the machine.
  pub write-Takes :
      (h : Host)
      → h.namespace ≡ g.namespace
      → h.name ≡ g.name
      → Owns hrm h
      → Takes hrm w h (record w { hosts = put_host h w.hosts })
  write-Takes h p q o = record {
    owned = o;
    local = p ∙ l;
    written = λ ns n. find_host-put_host h w.hosts ns n {g = g} (rw (p, q) f);
    quiet = refl;
  }

  set-Takes :
      let h = set_host_consumer_ref g (machine_reference_for hrm) in
      Takes hrm w h (record w { hosts = put_host h w.hosts })
  unfolding set_host_consumer_ref
  set-Takes =
      write-Takes (set_host_consumer_ref g (machine_reference_for hrm)) refl refl
        (record { consumer = refl; legacy = refl })

  pub ensure-Takes :
      (k : Kube) (w' : World) (h : Host)
      → ensure_host_consumer_ref k g hrm w ≡ (ok h, w')
      → Takes hrm w h w'
        × (w'.machine ≡ w.machine)
        × (h.name ≡ g.name)
        × (is_foreign (current_host_consumer_ref g) hrm ≡ false)
  unfolding set_host_consumer_ref
  ensure-Takes k w' h e =
      let (a, b) = ensure-cases k g hrm w w' h e in
      elim b [
        | inl (p, q, c, m) ↦ (
          rw (p, q) (keep-Takes c m),
          ap (λ (v : World). v.machine) q,
          ap (λ (v : Host). v.name) p,
          a,
        )
        | inr (p, q) ↦
            (rw (q, p) (set-Takes), ap (λ (v : World). v.machine) q, ap (λ (v : Host). v.name) p, a)
      ]
