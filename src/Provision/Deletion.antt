-- ===== src/Provision/Deletion.antt =====
-- The calls and the outcomes of reconcileDelete.
use mathlib.Core.Path.{subst}
use cluster_api_provider_het.Prelude.{
  ◌≡◌, ◌⊎◌, inl, inr, refl, sym, ap, ◌∙◌, none, some, List, ◌∷◌, arith, Bool, true, false,
  Bool-cases, ◌==◌,
}
use cluster_api_provider_het.Text.{Text}
use cluster_api_provider_het.Result.{Result, ok, Result-cases}
use cluster_api_provider_het.Exec.Within.{after}
use cluster_api_provider_het.Api.Host.{Host}
use cluster_api_provider_het.Api.Machine.{ProvisioningState}
use cluster_api_provider_het.Api.Capi.{Machine}
use cluster_api_provider_het.Policy.{authorize_destructive_provisioning_for}
use cluster_api_provider_het.World.{World, Call, activate_rescue, reset_server}
use cluster_api_provider_het.Ownership.Release.{Resolved, resolve_host_for_delete}
use cluster_api_provider_het.Ownership.Kept.{
  resolve_for_delete-kept, release_host-Frame, resolve_host_for_delete-releases,
}
use cluster_api_provider_het.Provision.{
  Env, Outcome, done, with_status, send_call, set_state, requeue_after, requeue_after_short,
}
use cluster_api_provider_het.Provision.Secrets.{build_robot_client, get_ssh_key_fingerprint}
use cluster_api_provider_het.Provision.Rescue.{call_activate_rescue, call_reset_server}
use cluster_api_provider_het.Provision.Driven.{pair_eq}
use cluster_api_provider_het.Provision.Delete.{
  drain_done, remove_finalizer, or_no_fingerprint, reset_for_delete, reset_known, reset_and_release,
  delete_gate, pass_delete_gate, delete_host, delete_resolved, or_no_host, reconcile_delete,
}

-- The world in which a deletion starts.
abbrev pub deleting : World → World
deleting w = with_status (λ st. record st { provisioning_state = ProvisioningState.deleting }) w

-- The calls of a deletion: nothing, or the host's server is armed and reset.
abbrev Sent : Env → Machine → World → Host → World → Type 0
Sent env machine w hrh w' =
    (authorize_destructive_provisioning_for env.now env.kube.releases (some w.machine)
        (some machine) (some hrh)
      ≡ ok tt)
    × ((fingerprint : Text) × (w'.calls
          ≡ reset_server hrh.spec.server_id
            ∷ activate_rescue hrh.spec.server_id fingerprint
            ∷ w.calls))

reset_and_release-Sent :
    (env : Env) (machine : Machine) (hrh : Host) (w : World)
    → delete_gate env machine w.machine hrh ≡ ok tt
    → ((after (reset_and_release env hrh) w).calls ≡ w.calls)
      ⊎ Sent env machine w hrh (after (reset_and_release env hrh) w)
unfolding reset_and_release reset_known reset_for_delete call_activate_rescue call_reset_server
    send_call remove_finalizer delete_gate
reset_and_release-Sent env machine hrh w g =
    let fingerprint = or_no_fingerprint (get_ssh_key_fingerprint env w.cluster) in
    let id = hrh.spec.server_id in
    let reset = record w { calls = reset_server id ∷ activate_rescue id fingerprint ∷ w.calls } in
    let frame = release_host-Frame env.kube w.machine.namespace hrh.name in
    elim (Bool-cases (id == 0)) [
      | inl unknown ↦ inl (ground (arith, frame w))
      | inr known ↦ inr (ground arith, (fingerprint, ground (arith, frame reset)))
    ]

delete_host-Sent :
    (env : Env) (machine : Machine) (hrh : Host) (w : World)
    → ((after (delete_host env machine (some hrh, true)) w).calls ≡ w.calls)
      ⊎ Sent env machine w hrh (after (delete_host env machine (some hrh, true)) w)
unfolding delete_host pass_delete_gate remove_finalizer
delete_host-Sent env machine hrh w = elim (Result-cases (delete_gate env machine w.machine hrh)) [
  | inr (e, bad) ↦ inl (ground arith)
  | inl (u, good) ↦
      let e : after (delete_host env machine (some hrh, true)) w
          ≡ after (reset_and_release env hrh) w =
        ap (λ g. after (pass_delete_gate env hrh g) w) good in
      subst (λ v. (v.calls ≡ w.calls) ⊎ Sent env machine w hrh v) (sym e)
        (reset_and_release-Sent env machine hrh w good)
]

delete_resolved-Sent :
    (env : Env) (machine : Machine) (hrh : Host) (w : World)
    → ((after (delete_resolved env machine (some hrh, true)) w).calls ≡ w.calls)
      ⊎ Sent env machine w hrh (after (delete_resolved env machine (some hrh, true)) w)
unfolding delete_resolved remove_finalizer
delete_resolved-Sent env machine hrh w = elim (Bool-cases (drain_done machine)) [
  | inr waits ↦ inl (ground arith)
  | inl drained ↦ elim (Result-cases (build_robot_client env w.cluster)) [
    | inr (e, bad) ↦ inl (ground arith)
    | inl (u, good) ↦
        let e : after (delete_resolved env machine (some hrh, true)) w
            ≡ after (delete_host env machine (some hrh, true)) w =
          ground arith in
        subst (λ v. (v.calls ≡ w.calls) ⊎ Sent env machine w hrh v) (sym e)
          (delete_host-Sent env machine hrh w)
  ]
]

nothing_resolved :
    (env : Env) (machine : Machine) (release : Bool) (w : World)
    → (after (delete_resolved env machine (none, release)) w).calls ≡ w.calls
unfolding delete_resolved delete_host remove_finalizer
nothing_resolved env machine release w = ground arith

-- The machine of a world as reconcileDelete passes it on.
from_resolved :
    (env : Env) (machine : Machine) (w : World)
    → after (reconcile_delete env machine) w
      ≡ after
          (delete_resolved env machine
            (or_no_host ((resolve_host_for_delete env.kube w.machine (deleting w)).0)))
          (deleting w)
unfolding reconcile_delete set_state
from_resolved env machine w =
    ap
      (λ v.
        after
          (delete_resolved env machine
            (or_no_host ((resolve_host_for_delete env.kube w.machine (deleting w)).0)))
          v)
      (resolve_for_delete-kept env.kube w.machine (deleting w))

abbrev calls_of : World → List Call
calls_of w = w.calls

abbrev resolved_end : Env → Machine → World → Result Resolved → World
resolved_end env machine w r = after (delete_resolved env machine (or_no_host r)) (deleting w)

-- A deletion sends nothing, or it arms the rescue system of one server and resets it, after the
-- host's policy allowed it; the host is one that a reference of it gives to the machine, or the one
-- that the machine's status names.
pub reconcile_delete-gated :
    (env : Env) (machine : Machine) (w : World)
    → ((after (reconcile_delete env machine) w).calls ≡ w.calls)
      ⊎ ((hrh : Host) × (resolve_host_for_delete env.kube w.machine (deleting w)
            ≡ (ok (some hrh, true), deleting w))
          × (authorize_destructive_provisioning_for env.now env.kube.releases
                (some (deleting w).machine)
                (some machine)
                (some hrh)
              ≡ ok tt)
          × (fingerprint : Text) × ((after (reconcile_delete env machine) w).calls
              ≡ reset_server hrh.spec.server_id
                ∷ activate_rescue hrh.spec.server_id fingerprint
                ∷ w.calls))
reconcile_delete-gated env machine w =
    let answer = resolve_host_for_delete env.kube w.machine (deleting w) in
    let unchanged = resolve_for_delete-kept env.kube w.machine (deleting w) in
    let to = from_resolved env machine w in
    elim (Result-cases (answer.0)) [
      | inr (e, bad) ↦ inl (
          ap calls_of (to ∙ ap (resolved_end env machine w) bad)
          ∙ nothing_resolved env machine false (deleting w))
      | inl ((none, release), good) ↦ inl (
          ap calls_of (to ∙ ap (resolved_end env machine w) good)
          ∙ nothing_resolved env machine release (deleting w))
      | inl ((some hrh, release), good) ↦
          let (s, r, c) =
            resolve_host_for_delete-releases env.kube w.machine (deleting w) (answer.1) hrh release
              (pair_eq good refl) in
          let good' : answer.0 ≡ ok (some hrh, true) = good ∙ ap (λ b. ok (some hrh, b)) r in
          let end = to ∙ ap (resolved_end env machine w) good' in
          elim (delete_resolved-Sent env machine hrh (deleting w)) [
            | inl nothing ↦ inl (ap calls_of end ∙ nothing)
            | inr (allowed, (fingerprint, sent)) ↦
                inr (hrh, pair_eq good' unchanged, allowed, fingerprint, ap calls_of end ∙ sent)
          ]
    ]

abbrev LetGo : Result Outcome × World → Type 0
LetGo p = (p.0 ≡ ok done) × (p.1.machine.has_finalizer ≡ false)

release-lets_go : (env : Env) (hrh : Host) (w : World) → LetGo (reset_and_release env hrh w)
unfolding reset_and_release reset_known reset_for_delete remove_finalizer
release-lets_go env hrh w = ground arith

host-lets_go :
    (env : Env) (machine : Machine) (r : Resolved) (w : World) → LetGo (delete_host env machine r w)
unfolding delete_host pass_delete_gate reset_known reset_for_delete remove_finalizer
host-lets_go env machine (none, release) w = (refl, refl)
host-lets_go env machine (some hrh, false) w = ground arith
host-lets_go env machine (some hrh, true) w =
    elim (Result-cases (delete_gate env machine w.machine hrh)) [
      | inr (e, bad) ↦ subst LetGo (sym (ap (λ g. pass_delete_gate env hrh g w) bad)) (refl, refl)
      | inl (u, good) ↦
          subst LetGo (sym (ap (λ g. pass_delete_gate env hrh g w) good))
            (release-lets_go env hrh w)
    ]

drained-lets_go :
    (env : Env) (machine : Machine) (r : Resolved) (w : World)
    → drain_done machine ≡ true
    → LetGo (delete_resolved env machine r w)
unfolding delete_resolved remove_finalizer
drained-lets_go env machine r w drained = ground (arith, host-lets_go env machine r w)

-- A deletion never fails: once the node is drained it lets the machine go, and before that it
-- comes back after 15 seconds, with nothing sent and every host as it was.
pub reconcile_delete-ends :
    (env : Env) (machine : Machine) (w : World)
    → ((drain_done machine ≡ true)
        × ((reconcile_delete env machine w).0 ≡ ok done)
        × ((after (reconcile_delete env machine) w).machine.has_finalizer ≡ false))
      ⊎ ((drain_done machine ≡ false)
          × (reconcile_delete env machine w ≡ (ok (requeue_after requeue_after_short), deleting w)))
unfolding reconcile_delete set_state delete_resolved
reconcile_delete-ends env machine w =
    let found = or_no_host ((resolve_host_for_delete env.kube w.machine (deleting w)).0) in
    let unchanged = resolve_for_delete-kept env.kube w.machine (deleting w) in
    elim (Bool-cases (drain_done machine)) [
      | inl drained ↦
          let (a, b) =
            drained-lets_go env machine found
              (after (resolve_host_for_delete env.kube w.machine) (deleting w)) drained in
          inl (drained, a, b)
      | inr waits ↦ inr (waits, pair_eq (ground arith) (ground (arith, unchanged)))
    ]
