-- ===== src/Ownership/Kept.antt =====
-- The frame of the operations behind the claim of a host, and what a deletion resolves to.
use cluster_api_provider_het.Prelude.{
  ◌≡◌, refl, ap, sym, ◌∙◌, arith, Option, none, some, inl, inr, ◌⊎◌, Option-cases, Bool-cases, Bool,
  true, false, List, [], ◌∷◌, ℕ,
}
use cluster_api_provider_het.Text.{Text, is_empty}
use cluster_api_provider_het.Result.{ok, Result-cases}
use cluster_api_provider_het.Exec.Within.{after}
use cluster_api_provider_het.Api.Host.{Host}
use cluster_api_provider_het.Api.Machine.{RobotMachine}
use cluster_api_provider_het.SshRescue.Hardware.{HardwareInfo}
use cluster_api_provider_het.World.{
  World, Kube, find_host, select_hosts, get_host, list_hosts, patch_host,
}
use cluster_api_provider_het.Ownership.{host_is_claimed_by, robot_server_id_from_provider_id}
use cluster_api_provider_het.Ownership.Claim.{first_claimed, named, set_host_ref}
use cluster_api_provider_het.Ownership.Within.{Frame}
use cluster_api_provider_het.Ownership.Hardware.{record_host_hardware_details}
use cluster_api_provider_het.Ownership.Adoption.{
  ensure_provisioned_host_status, settle_host, backfill_provisioned_host_claim, adopt_host,
  resolve_provisioned_adoption_host, adoption_host_by_spec,
}
use cluster_api_provider_het.Ownership.Release.{
  release_claimed, release_first, resolve_for_delete_by_spec, resolve_for_delete_by_status,
  resolve_host_for_delete, release_host,
}

pub record_hardware-Frame :
    (k : Kube) (ns name : Text) (hw : HardwareInfo) (w : World)
    → Frame w (after (record_host_hardware_details k ns name hw) w)
unfolding record_host_hardware_details get_host patch_host
record_hardware-Frame k ns name hw w = ground arith

pub release_host-Frame :
    (k : Kube) (ns name : Text) (w : World) → Frame w (after (release_host k ns name) w)
unfolding release_host get_host patch_host
release_host-Frame k ns name w = ground arith

settle-Frame :
    (k : Kube) (hrm : RobotMachine) (h : Host) (r : Option _) (w : World)
    → Frame w (after (settle_host k hrm h r) w)
unfolding settle_host patch_host
settle-Frame k hrm h none w = ground arith
settle-Frame k hrm h (some r) w = (refl, refl, refl)

pub ensure_provisioned-Frame :
    (k : Kube) (w : World) → Frame w (after (ensure_provisioned_host_status k) w)
unfolding ensure_provisioned_host_status get_host settle_host patch_host
ensure_provisioned-Frame k w = ground arith

adoption_host-kept :
    (k : Kube) (hrm : RobotMachine) (id : ℕ) (name selector : Option Text) (w : World)
    → after (adoption_host_by_spec k hrm id name selector) w ≡ w
unfolding adoption_host_by_spec get_host list_hosts
adoption_host-kept k hrm id (some name) selector w = ground arith
adoption_host-kept k hrm id none none w = refl
adoption_host-kept k hrm id none (some selector) w =
    elim (Result-cases (k.label_selector selector)) [
      | inr (e, bad) ↦ rw bad refl
      | inl (p, good) ↦ rw good (ground arith)
    ]

resolve_for_delete_by_spec-kept :
    (k : Kube) (hrm : RobotMachine) (name selector : Option Text) (w : World)
    → after (resolve_for_delete_by_spec k hrm name selector) w ≡ w
unfolding resolve_for_delete_by_spec get_host list_hosts
resolve_for_delete_by_spec-kept k hrm (some name) selector w = ground arith
resolve_for_delete_by_spec-kept k hrm none (some selector) w =
    elim (Result-cases (k.label_selector selector)) [
      | inr (e, bad) ↦ rw bad refl
      | inl (p, good) ↦ rw good (ground arith)
    ]
resolve_for_delete_by_spec-kept k hrm none none w = refl

pub resolve_for_delete-kept :
    (k : Kube) (hrm : RobotMachine) (w : World) → after (resolve_host_for_delete k hrm) w ≡ w
unfolding resolve_host_for_delete resolve_for_delete_by_status get_host
resolve_for_delete-kept k hrm w = ground (
  arith,
  resolve_for_delete_by_spec-kept k hrm (named hrm.spec.host_ref) hrm.spec.host_selector w,
)

pair_eq : {A B : Type 0} {p : A × B} {a : A} {b : B} → p.0 ≡ a → p.1 ≡ b → p ≡ (a, b)
pair_eq h g i = (h i, g i)

adopt-Frame :
    (k : Kube) (hrm : RobotMachine) (id : ℕ) (w : World) → Frame w (after (adopt_host k hrm id) w)
unfolding adopt_host resolve_provisioned_adoption_host patch_host set_host_ref
adopt-Frame k hrm id w =
    let found = adoption_host_by_spec k hrm id (named hrm.spec.host_ref) hrm.spec.host_selector w in
    let kept = adoption_host-kept k hrm id (named hrm.spec.host_ref) hrm.spec.host_selector w in
    elim (Result-cases (found.0)) [
      | inr (e, bad) ↦ ground (arith, pair_eq bad kept)
      | inl (h, good) ↦ ground (arith, pair_eq good kept)
    ]

pub backfill-Frame : (k : Kube) (w : World) → Frame w (after (backfill_provisioned_host_claim k) w)
unfolding backfill_provisioned_host_claim
backfill-Frame k w =
    elim (Option-cases (robot_server_id_from_provider_id w.machine.spec.provider_id)) [
      | inl absent ↦ ground arith
      | inr (id, there) ↦ ground (arith, adopt-Frame k w.machine id w)
    ]

first_claimed-claimed :
    (hrm : RobotMachine) (l : List Host) (h : Host)
    → first_claimed hrm l ≡ some h
    → host_is_claimed_by h hrm ≡ true
unfolding first_claimed
first_claimed-claimed hrm [] h e = ground arith
first_claimed-claimed hrm (g ∷ l) h e = ground (arith, first_claimed-claimed hrm l h)

by_spec-claimed :
    (k : Kube) (hrm : RobotMachine) (name selector : Option Text) (w : World) (h : Host)
    (release : Bool)
    → (resolve_for_delete_by_spec k hrm name selector w).0 ≡ ok (some h, release)
    → (host_is_claimed_by h hrm ≡ true) × (release ≡ true)
unfolding resolve_for_delete_by_spec get_host list_hosts release_claimed release_first
by_spec-claimed k hrm (some name) selector w h release e = ground arith
by_spec-claimed k hrm none none w h release e = ground arith
by_spec-claimed k hrm none (some selector) w h release e =
    elim (Result-cases (k.label_selector selector)) [
      | inr (m, bad) ↦ ground arith
      | inl (p, good) ↦
          ground (arith, first_claimed-claimed hrm (select_hosts hrm.namespace p w.hosts) h)
    ]

-- A host that a deletion resolves to is always to be released; a reference of it names the machine,
-- or the machine's status names it. Nothing is written.
pub resolve_host_for_delete-releases :
    (k : Kube) (hrm : RobotMachine) (w w' : World) (h : Host) (release : Bool)
    → resolve_host_for_delete k hrm w ≡ (ok (some h, release), w')
    → (w' ≡ w)
      × (release ≡ true)
      × ((host_is_claimed_by h hrm ≡ true)
          ⊎ ((is_empty hrm.status.host_ref ≡ false)
              × (find_host hrm.namespace hrm.status.host_ref w.hosts ≡ some h)))
unfolding resolve_host_for_delete resolve_for_delete_by_status get_host
resolve_host_for_delete-releases k hrm w w' h release e =
    let same : w' ≡ w = sym (ap (λ p. p.1) e) ∙ resolve_for_delete-kept k hrm w in
    elim (Bool-cases (is_empty hrm.status.host_ref)) [
      | inr named_by ↦ (same, ground arith, inr (named_by, ground arith))
      | inl unnamed ↦
          let (c, r) =
            by_spec-claimed k hrm (named hrm.spec.host_ref) hrm.spec.host_selector w h release
              (ground arith) in
          (same, r, inl c)
    ]
