-- ===== src/Ownership/Within.antt =====
-- What the operations on hosts may change: hosts in the store, and the machine's host reference.
use cluster_api_provider_het.Prelude.{◌≡◌, refl, arith, Option, none, some, inl, inr, Option-cases}
use cluster_api_provider_het.Text.{Text}
use cluster_api_provider_het.Result.{Result-cases}
use cluster_api_provider_het.Exec.Within.{after}
use cluster_api_provider_het.Api.Host.{Host}
use cluster_api_provider_het.Api.Machine.{RobotMachine}
use cluster_api_provider_het.World.{World, Kube, select_hosts, get_host, list_hosts, patch_host}
use cluster_api_provider_het.Ownership.{ensure_host_consumer_ref}
use cluster_api_provider_het.Ownership.Claim.{
  with_host_ref, set_host_ref, claim_candidate, recover_claim, resolve_by_name, resolve_by_selector,
  resolve_claimed, resolve_by_spec, resolve_host, first_claimed, first_available, named,
}

-- Two worlds with the same calls and cluster, whose machines differ in their host reference only.
abbrev pub Frame : World → World → Type 0
Frame w w' =
    (w'.calls ≡ w.calls)
    × (w'.cluster ≡ w.cluster)
    × (w'.machine ≡ with_host_ref w'.machine.status.host_ref w.machine)

ensure-Frame :
    (k : Kube) (h : Host) (hrm : RobotMachine) (w : World)
    → Frame w (after (ensure_host_consumer_ref k h hrm) w)
unfolding ensure_host_consumer_ref patch_host
ensure-Frame k h hrm w = ground arith

claim_candidate-Frame :
    (k : Kube) (hrm : RobotMachine) (name : Text) (w : World)
    → Frame w (after (claim_candidate k hrm name) w)
unfolding claim_candidate set_host_ref patch_host get_host
claim_candidate-Frame k hrm name w = ground arith

recover_claim-Frame :
    (k : Kube) (hrm : RobotMachine) (h : Host) (w : World)
    → Frame w (after (recover_claim k hrm h) w)
unfolding recover_claim set_host_ref ensure_host_consumer_ref patch_host
recover_claim-Frame k hrm h w = ground arith

resolve_by_name-Frame :
    (k : Kube) (hrm : RobotMachine) (name : Text) (w : World)
    → Frame w (after (resolve_by_name k hrm name) w)
unfolding resolve_by_name get_host claim_candidate recover_claim set_host_ref
    ensure_host_consumer_ref patch_host
resolve_by_name-Frame k hrm name w = ground arith

resolve_by_selector-Frame :
    (k : Kube) (hrm : RobotMachine) (selector : Text) (w : World)
    → Frame w (after (resolve_by_selector k hrm selector) w)
unfolding resolve_by_selector list_hosts first_claimed select_hosts
resolve_by_selector-Frame k hrm selector w = elim (Result-cases (k.label_selector selector)) [
  | inr (e, bad) ↦ rw bad (refl, refl, refl)
  | inl (p, good) ↦ rw good (elim (Option-cases k.list_hosts_error) [
    | inr (e, bad) ↦ rw bad (refl, refl, refl)
    | inl fine ↦ rw fine (
        let l = select_hosts hrm.namespace p w.hosts in
        elim (Option-cases (first_claimed hrm l)) [
          | inr (h, there) ↦ rw there (recover_claim-Frame k hrm h w)
          | inl absent ↦
              rw absent (ground (arith, claim_candidate-Frame k hrm (first_available l) w))
        ])
  ])
]

resolve_claimed-Frame :
    (k : Kube) (hrm : RobotMachine) (w : World) → Frame w (after (resolve_claimed k hrm) w)
unfolding resolve_claimed get_host ensure_host_consumer_ref patch_host
resolve_claimed-Frame k hrm w = ground arith

resolve_by_spec-Frame :
    (k : Kube) (hrm : RobotMachine) (name selector : Option Text) (w : World)
    → Frame w (after (resolve_by_spec k hrm name selector) w)
unfolding resolve_by_spec
resolve_by_spec-Frame k hrm (some name) selector w = resolve_by_name-Frame k hrm name w
resolve_by_spec-Frame k hrm none (some selector) w = resolve_by_selector-Frame k hrm selector w
resolve_by_spec-Frame k hrm none none w = (refl, refl, refl)

pub resolve_host-Frame : (k : Kube) (w : World) → Frame w (after (resolve_host k) w)
unfolding resolve_host
resolve_host-Frame k w = ground (
  arith,
  resolve_by_spec-Frame k w.machine (named w.machine.spec.host_ref) w.machine.spec.host_selector w,
  resolve_claimed-Frame k w.machine w,
)
