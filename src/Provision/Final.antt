-- ===== src/Provision/Final.antt =====
-- StateError in later reconciles.
use cluster_api_provider_het.Prelude.{
  ◌≡◌, inl, inr, refl, sym, ap, ◌∙◌, arith, Bool, true, false, Bool-cases,
}
use cluster_api_provider_het.Result.{Result, ok}
use cluster_api_provider_het.Exec.Within.{after}
use cluster_api_provider_het.Api.Host.{Host}
use cluster_api_provider_het.Api.Machine.{RobotMachine, ProvisioningState}
use cluster_api_provider_het.Api.Capi.{Machine}
use cluster_api_provider_het.World.{World}
use cluster_api_provider_het.Policy.{provisioning_may_become_destructive}
use cluster_api_provider_het.Provision.{Env, Outcome, done, is_flatcar}
use cluster_api_provider_het.Provision.Normal.{run_state, reconcile_normal}
use cluster_api_provider_het.Provision.Driven.{Quiet, reconcile_normal-cases, addressed}
use cluster_api_provider_het.Provision.Graph.{state_of}
use cluster_api_provider_het.Provision.Reconcile.{reconcile_live, reconcile_fetched}
use cluster_api_provider_het.Provision.Errors.{
  Ends, waits, times_out, succeeds, permanent, transient, clocked, reconcile_live-Ends,
}

-- The worlds that come after `w` while the machine is not being deleted: reconciles, and between them
-- whatever else changes the objects, but for the machine's provisioning state and the calls sent.
pub data Later (w : World) : World → Type 0 where
  now : Later w w
  outside : {u v : World} → Later w u → state_of v ≡ state_of u → v.calls ≡ u.calls → Later w v
  reconciles :
      {u : World} (env : Env) (machine : Machine)
      → Later w u
      → u.machine.deleting ≡ false
      → Later w (after (reconcile_fetched env machine) u)

run_failed :
    (env : Env) (machine : Machine) (hrh : Host) (s : ProvisioningState) (flatcar : Bool)
    (w : World)
    → s ≡ ProvisioningState.failed
    → after (run_state env machine hrh s flatcar) w ≡ w
unfolding run_state provisioning_may_become_destructive
run_failed env machine hrh s flatcar w failed = ground arith

normal-Quiet :
    (env : Env) (machine : Machine) (w : World)
    → state_of w ≡ ProvisioningState.failed
    → Quiet w (after (reconcile_normal env machine) w)
normal-Quiet env machine w failed = elim (reconcile_normal-cases env machine w) [
  | inl quiet ↦ quiet
  | inr driven ↦
      let start = addressed driven.host driven.found in
      let same : state_of driven.found ≡ state_of w =
        ap (λ (m : RobotMachine). m.status.provisioning_state) (driven.frame.2) in
      let stop =
        driven.stepped
        ∙ run_failed env machine driven.host (state_of start) (is_flatcar start.machine) start
            (same ∙ failed) in
      (ap (λ (v : World). v.calls) stop ∙ driven.frame.0, ap state_of stop ∙ same)
]

-- Where reconcileNormal came to v, from the clocked world.
clocked-Quiet :
    (env : Env) (machine : Machine) (w v : World) {r : Result Outcome}
    → state_of w ≡ ProvisioningState.failed
    → reconcile_normal env machine (clocked env w) ≡ (r, v)
    → Quiet w v
clocked-Quiet env machine w v failed e =
    let state : state_of (clocked env w) ≡ state_of w = ground arith in
    let calls : (clocked env w).calls ≡ w.calls = ground arith in
    let (sent, moved) = normal-Quiet env machine (clocked env w) (state ∙ failed) in
    (sym (ap (λ p. p.1.calls) e) ∙ sent ∙ calls, sym (ap (λ p. state_of p.1) e) ∙ moved ∙ state)

Ends-Quiet :
    (env : Env) (machine : Machine) (w w' : World) (r : Result Outcome)
    → state_of w ≡ ProvisioningState.failed
    → Ends env machine w r w'
    → Quiet w w'
Ends-Quiet env machine w w' r failed (waits left t n i a b c e) = (ground arith, ground arith)
Ends-Quiet env machine w w' r failed (times_out t u a l m) = (m.calls, m.state ∙ sym failed)
Ends-Quiet env machine w w' r failed (succeeds {v} i x e c) =
    let (calls, state) = clocked-Quiet env machine w v failed e in
    (c.calls ∙ calls, c.state ∙ state)
Ends-Quiet env machine w w' r failed (permanent {v} e i x h p m) =
    let (calls, state) = clocked-Quiet env machine w v failed h in
    (m.calls ∙ calls, m.state ∙ sym failed)
Ends-Quiet env machine w w' r failed (transient {v} e i x h p) =
    clocked-Quiet env machine w v failed h

fetched-Quiet :
    (env : Env) (machine : Machine) (w : World)
    → w.machine.deleting ≡ false
    → state_of w ≡ ProvisioningState.failed
    → Quiet w (after (reconcile_fetched env machine) w)
unfolding reconcile_fetched
fetched-Quiet env machine w remains failed =
    let (calls, state) = Ends-Quiet env machine w _ _ failed (reconcile_live-Ends env machine w) in
    elim (Bool-cases w.machine.has_finalizer) [
      | inl kept ↦
          let e : reconcile_fetched env machine w ≡ reconcile_live env machine w = ground arith in
          (ap (λ p. p.1.calls) e ∙ calls, ap (λ p. state_of p.1) e ∙ state)
      | inr new ↦
          let e : reconcile_fetched env machine w
              ≡ (ok done, record w { machine = record w.machine { has_finalizer = true } }) =
            ground arith in
          (ap (λ p. p.1.calls) e, ap (λ p. state_of p.1) e)
    ]

-- StateError is final for a machine that is not being deleted: through any number of later
-- reconciles, whatever the outside answers and however the objects change between them, the machine
-- stays in StateError, and no call is made that arms, resets, wipes, installs, reboots or configures a
-- server, as long as nothing else changes the machine's provisioning state.
pub Later-failed :
    (w v : World)
    → state_of w ≡ ProvisioningState.failed
    → Later w v
    → (state_of v ≡ ProvisioningState.failed) × (v.calls ≡ w.calls)
Later-failed w v failed now = (failed, refl)
Later-failed w v failed (outside {u} later state calls) =
    let (here, sent) = Later-failed w u failed later in (state ∙ here, calls ∙ sent)
Later-failed w v failed (reconciles {u} env machine later remains) =
    let (here, sent) = Later-failed w u failed later in
    let (calls, state) = fetched-Quiet env machine u remains here in (state ∙ here, calls ∙ sent)
