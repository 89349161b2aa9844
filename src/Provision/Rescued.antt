-- ===== src/Provision/Rescued.antt =====
-- The writes to a server's disks that reconcileNormal sends, against the check of the rescue system.
use mathlib.Core.Path.{subst, subst₂}
use mathlib.Core.Bool.{true≢false}
use cluster_api_provider_het.Prelude.{
  ℕ, ◌≡◌, ◌⊎◌, inl, inr, refl, sym, ap, ◌∙◌, arith, Bool, true, false, none, Bool-cases,
  Option-cases,
}
use cluster_api_provider_het.Text.{Text}
use cluster_api_provider_het.Text.Equal.{text_eq_refl}
use cluster_api_provider_het.Result.{ok, err, Result-cases}
use cluster_api_provider_het.Exec.Within.{after}
use cluster_api_provider_het.Api.Host.{Host}
use cluster_api_provider_het.Api.Capi.{Machine}
use cluster_api_provider_het.Ownership.Claim.{resolve_host}
use cluster_api_provider_het.World.{World, Call, reset_server, activate_rescue, wipe_system_disk}
use cluster_api_provider_het.World.Calls.{
  Adds, same, send, is_apply, keeps_disks, installs_at, wipes_system_at,
}
use cluster_api_provider_het.SshRescue.Client.{is_reachable, is_rescue_mode, connect}
use cluster_api_provider_het.Api.Machine.{
  RobotMachine, ProvisioningState, activating_rescue, in_rescue,
}
use cluster_api_provider_het.Talos.{is_up}
use cluster_api_provider_het.Provision.{Env, is_flatcar}
use cluster_api_provider_het.Provision.Secrets.{get_ssh_private_key}
use cluster_api_provider_het.Provision.Rescue.{state_activate_rescue, rescue_shell}
use cluster_api_provider_het.Provision.Graph.{state_of}
use cluster_api_provider_het.Provision.Install.{rescue_check}
use cluster_api_provider_het.Provision.Cooldown.{Activation, state_activate_rescue-Activation}
use cluster_api_provider_het.Provision.Keeps.{Allows}
use cluster_api_provider_het.Provision.Sends.{is_verified, run_state-Sends}
use cluster_api_provider_het.Provision.Driven.{Driven, reconcile_normal-cases, addressed}
use cluster_api_provider_het.Provision.Normal.{reconcile_normal}

-- An activation sends what p allows.
activation-Adds :
    (p : Call → Bool) (id : ℕ) (w w' : World)
    → ((fingerprint : Text) → p (activate_rescue id fingerprint) ≡ true)
    → p (reset_server id) ≡ true
    → Activation id w w'
    → Adds p w.calls w'.calls
activation-Adds p id w w' a r (inl kept) = subst (Adds p w.calls) (sym kept) same
activation-Adds p id w w' a r (inr (f, inl sent)) =
    subst (Adds p w.calls) (sym sent) (send (activate_rescue id f) (a f) same)
activation-Adds p id w w' a r (inr (f, inr sent)) =
    subst (Adds p w.calls) (sym sent)
      (send (reset_server id) r (send (activate_rescue id f) (a f) same))

-- The shell of a server says that it is the rescue system, to the key of the cluster.
pub record Verified (env : Env) (w : World) (ip : Text) : Type 0 where
  pub key : Text
  pub has_key : get_ssh_private_key env w.cluster ≡ ok key
  pub reachable : is_reachable env.network ip ≡ true
  pub in_rescue : is_rescue_mode env.network ip key ≡ ok true

Verified-rescue_check :
    (env : Env) (ip : Text) (w : World)
    → is_verified (rescue_check env ip w) ≡ true
    → Verified env w ip
unfolding rescue_check
Verified-rescue_check env ip w h = elim (Bool-cases (is_reachable env.network ip)) [
  | inr closed ↦ absurd (ground arith)
  | inl reached ↦ elim (Result-cases (get_ssh_private_key env w.cluster)) [
    | inr (e, absent) ↦ absurd (ground arith)
    | inl (key, there) ↦ elim (Result-cases (is_rescue_mode env.network ip key)) [
      | inr (e, bad) ↦ absurd (ground arith)
      | inl (b, good) ↦ record {
        key = key;
        has_key = there;
        reachable = reached;
        in_rescue = ground arith;
      }
    ]
  ]
]

-- No shell of a server answers: port 22 is closed, the cluster's key is not there, or it does not
-- open the shell.
abbrev pub NoShell : Env → World → Text → Type 0
NoShell env w ip =
    (is_reachable env.network ip ≡ false)
    ⊎ ((e : Text) × (get_ssh_private_key env w.cluster ≡ err e))
    ⊎ ((key : Text) × (e : Text) × (get_ssh_private_key env w.cluster ≡ ok key)
        × (connect env.network ip key ≡ err e))

NoShell-rescue_shell :
    (env : Env) (ip : Text) (w : World) → rescue_shell env ip w ≡ none → NoShell env w ip
unfolding rescue_shell
NoShell-rescue_shell env ip w h = elim (Bool-cases (is_reachable env.network ip)) [
  | inr closed ↦ inl closed
  | inl reached ↦ elim (Result-cases (get_ssh_private_key env w.cluster)) [
    | inr (e, absent) ↦ inr (inl (e, absent))
    | inl (key, there) ↦ elim (Result-cases (connect env.network ip key)) [
      | inr (e, bad) ↦ inr (inr (key, e, there, bad))
      | inl (u, good) ↦ absurd (ground arith)
    ]
  ]
]

apply-keeps : (c : Call) → is_apply c ≡ true → keeps_disks c ≡ true
apply-keeps c h = ground arith

apply-installs_at : (ip : Text) (c : Call) → is_apply c ≡ true → installs_at ip c ≡ true
apply-installs_at ip c h = ground arith

apply-wipes_at : (ip : Text) (c : Call) → is_apply c ≡ true → wipes_system_at ip c ≡ true
apply-wipes_at ip c h = ground arith

install_here : (env : Env) (id : ℕ) (ip : Text) → Allows (installs_at ip) env id ip
install_here env id ip =
    let here = text_eq_refl ip in
    (λ disks. here, λ disk. here, λ disk ignition. here, refl, refl, refl)

-- Activations send no install, whatever p is asked for.
activates :
    (p : Call → Bool) (env : Env)
    → ((id : ℕ) (fingerprint : Text) → p (activate_rescue id fingerprint) ≡ true)
    → ((id : ℕ) → p (reset_server id) ≡ true)
    → (id : ℕ) (w : World) → Unit {0}
    → Adds p w.calls (after (state_activate_rescue env id) w).calls
activates p env a r id w u =
    activation-Adds p id w (after (state_activate_rescue env id) w) (a id) (r id)
      (state_activate_rescue-Activation env id w)

-- The calls of a driven step, from those of the state's step.
driven-Adds :
    (p : Call → Bool) (env : Env) (machine : Machine) (w w' : World)
    (step : Driven env machine w w')
    → ((id : ℕ) (fingerprint : Text) → p (activate_rescue id fingerprint) ≡ true)
    → ((id : ℕ) → p (reset_server id) ≡ true)
    → ((c : Call) → is_apply c ≡ true → p c ≡ true)
    → (state_of step.found ≡ activating_rescue
        → rescue_shell env step.host.spec.server_ip (addressed step.host step.found) ≡ none
        → is_up env.grpc step.host.spec.server_ip ≡ true
        → p (wipe_system_disk step.host.spec.server_ip) ≡ true)
    → (state_of step.found ≡ in_rescue
        → is_verified (rescue_check env step.host.spec.server_ip (addressed step.host step.found))
          ≡ true
        → Allows p env step.host.spec.server_id step.host.spec.server_ip)
    → Adds p w.calls w'.calls
driven-Adds p env machine w w' step a r y x h =
    let start = addressed step.host step.found in
    subst₂ (λ l m. Adds p l m) (step.frame.0) (ap (λ (v : World). v.calls) (sym step.stepped))
      (run_state-Sends p (λ v. Unit {0}) env (activates p env a r) (λ c v u. tt) y machine step.host
        start.machine.status.provisioning_state (is_flatcar start.machine) start tt x h)

-- What writes to the disks of the server at an address may be sent: behind the check of the rescue
-- system in its state, the wipe and the image; where the rescue system is awaited, no shell answers
-- and Talos is up, the Talos API's wipe of the system disk.
abbrev pub Writes : Env → World → Text → World → Type 0
Writes env w ip w' =
    ((state_of w ≡ in_rescue) × Verified env w ip × Adds (installs_at ip) w.calls w'.calls)
    ⊎ ((state_of w ≡ activating_rescue)
        × NoShell env w ip
        × (is_up env.grpc ip ≡ true)
        × Adds (wipes_system_at ip) w.calls w'.calls)

module _ (env : Env) (machine : Machine) (w w' : World) (step : Driven env machine w w') where
  abbrev ip : Text
  ip = step.host.spec.server_ip

  abbrev start : World
  start = addressed step.host step.found

  same_state : state_of step.found ≡ state_of w
  same_state = ap (λ (m : RobotMachine). m.status.provisioning_state) (step.frame.2)

  before : {ip : Text} → Verified env start ip → Verified env w ip
  before s = record {
    key = s.key;
    has_key = ap (get_ssh_private_key env) (sym step.frame.1) ∙ s.has_key;
    reachable = s.reachable;
    in_rescue = s.in_rescue;
  }

  -- The step of a state, where it is `s`.
  step-Writes :
      (s : ProvisioningState)
      → state_of step.found ≡ s
      → Adds keeps_disks w.calls w'.calls ⊎ Writes env w ip w'
  step-Writes in_rescue here = elim (Bool-cases (is_verified (rescue_check env ip start))) [
    | inr other ↦ inl (
        driven-Adds keeps_disks env machine w w' step (λ id f. refl) (λ id. refl) apply-keeps
          (λ a b c. absurd (cc)) λ a v. elim (true≢false (sym v ∙ other)) [ ])
    | inl rescue ↦ inr (
        inl (
          sym same_state ∙ here,
          before (Verified-rescue_check env ip start rescue),
          driven-Adds (installs_at ip) env machine w w' step (λ id f. refl) (λ id. refl)
              (apply-installs_at ip) (λ a b c. absurd (cc))
              λ a v. install_here env step.host.spec.server_id ip,
        ))
  ]
  step-Writes activating_rescue here = elim (Option-cases (rescue_shell env ip start)) [
    | inr (b, answers) ↦ inl (
        driven-Adds keeps_disks env machine w w' step (λ id f. refl) (λ id. refl) apply-keeps
          (λ a b c. absurd (cc)) λ a v. absurd (cc))
    | inl silent ↦ elim (Bool-cases (is_up env.grpc ip)) [
      | inr down ↦ inl (
          driven-Adds keeps_disks env machine w w' step (λ id f. refl) (λ id. refl) apply-keeps
            (λ a b c. absurd (cc)) λ a v. absurd (cc))
      | inl up ↦ inr (
          inr (
            sym same_state ∙ here,
            subst (λ c. NoShell env (record w { cluster = c }) ip) step.frame.1
                (NoShell-rescue_shell env ip start silent),
            up,
            driven-Adds (wipes_system_at ip) env machine w w' step (λ id f. refl) (λ id. refl)
                (apply-wipes_at ip) (λ a b c. text_eq_refl ip) λ a v. absurd (cc),
          ))
    ]
  ]
  step-Writes _ here = inl (
      driven-Adds keeps_disks env machine w w' step (λ id f. refl) (λ id. refl) apply-keeps
        (λ a b c. absurd (cc)) λ a v. absurd (cc))

-- reconcileNormal writes to no disk, or it does so on the server of the host that it resolved, in
-- one of two ways. In the state of the rescue system, where the server answers on port 22 and its
-- shell, to which the cluster's key opens, says that it is the rescue system: then each call that
-- writes to a disk is a wipe of the disks or an image over the shell at that host's address. Or the
-- rescue system is awaited and no shell of the server answers (port 22 is closed, there is no key, or
-- it does not open the shell), but Talos is up there: then each call that writes to a disk is the
-- Talos API's wipe of the system disk, at that host's address and with no check of a rescue system.
pub reconcile_normal-Writes :
    (env : Env) (machine : Machine) (w : World)
    → Adds keeps_disks w.calls (after (reconcile_normal env machine) w).calls
      ⊎ ((hrh : Host) × (found : World) × (resolve_host env.kube w ≡ (ok hrh, found))
          × Writes env w hrh.spec.server_ip (after (reconcile_normal env machine) w))
reconcile_normal-Writes env machine w = elim (reconcile_normal-cases env machine w) [
  | inl quiet ↦ inl (subst (Adds keeps_disks w.calls) (sym (quiet.0)) same)
  | inr step ↦ elim (step-Writes env machine w _ step (state_of step.found) refl) [
    | inl keeps ↦ inl keeps
    | inr writes ↦ inr (step.host, step.found, step.resolved, writes)
  ]
]
