-- ===== src/Policy/Exact.antt =====
-- The decisions of the policy, against conditions on hosts and releases.
use mathlib.Core.List.{Memᴰ}
use cluster_api_provider_het.Prelude.{
  ℕ, ◌<◌, ◌≡◌, ◌↔◌, ◌⊎◌, inl, inr, refl, true, false, some, List, [], ◌∷◌, arith, Bool-cases,
  Option-cases,
}
use mathlib.Core.Path.{subst}
use cluster_api_provider_het.Text.Equal.{text_eq_iff}
use cluster_api_provider_het.Result.{Done, ok, Result-cases}
use cluster_api_provider_het.Api.Host.{Host, LifecycleClass, DestructivePolicy}
use cluster_api_provider_het.Api.Machine.{RobotMachine}
use cluster_api_provider_het.Api.Capi.{Machine}
use cluster_api_provider_het.Api.Release.{HostRelease, wipe_and_reinstall}
use cluster_api_provider_het.Policy.{
  Releases, release_matches, first_release, find_active_host_release, require_release,
  authorize_destructive_provisioning_for, authorize_automated_hardware_reset,
}

-- A release lets `machine` wipe `host` at `now`.
pub record Grants (now : ℕ) (host : Host) (machine : Machine) (release : HostRelease) : Type 0 where
  pub host_named : release.host_ref ≡ host.name
  pub action : release.approved_action ≡ wipe_and_reinstall
  pub unexpired : now < release.expires_at
  pub machine_name : release.machine_ref.name ≡ machine.name
  pub machine_namespace : release.machine_ref.namespace ≡ machine.namespace
  pub machine_uid : release.machine_ref.uid ≡ machine.uid

-- A release of the list grants the wipe.
abbrev pub Released : ℕ → Host → Machine → List HostRelease → Type 0
Released now host machine l =
    (release : HostRelease) × Memᴰ release l × Grants now host machine release

-- The policy in words: a disposable compute host, or a storage host with a release.
abbrev pub MayWipe : ℕ → Releases → Machine → Host → Type 0
MayWipe now releases machine host =
    (host.spec.maintenance_mode ≡ false)
    × (((host.spec.lifecycle_class ≡ LifecycleClass.compute)
          × (host.spec.policy ≡ DestructivePolicy.always_clean_slate))
        ⊎ ((host.spec.lifecycle_class ≡ LifecycleClass.storage)
            × (host.spec.policy ≡ DestructivePolicy.requires_external_release)
            × ((l : List HostRelease) × (releases host.namespace ≡ ok l)
                × Released now host machine l)))

module _ (now : ℕ) (host : Host) (machine : Machine) where
  matches-Grants :
      (r : HostRelease) → release_matches now host machine r ≡ true → Grants now host machine r
  unfolding release_matches
  matches-Grants r h = ground (
    arith,
    text_eq_iff r.host_ref host.name,
    text_eq_iff r.machine_ref.name machine.name,
    text_eq_iff r.machine_ref.namespace machine.namespace,
    text_eq_iff r.machine_ref.uid machine.uid,
  )

  Grants-matches :
      (r : HostRelease) → Grants now host machine r → release_matches now host machine r ≡ true
  unfolding release_matches
  Grants-matches r g = ground (
    arith,
    text_eq_iff r.host_ref host.name,
    text_eq_iff r.machine_ref.name machine.name,
    text_eq_iff r.machine_ref.namespace machine.namespace,
    text_eq_iff r.machine_ref.uid machine.uid,
  )

  first_release-Released :
      (l : List HostRelease) {r : HostRelease}
      → first_release now host machine l ≡ some r
      → Released now host machine l
  unfolding first_release
  first_release-Released [] h = cc
  first_release-Released (x ∷ l) h = elim (Bool-cases (release_matches now host machine x)) [
    | inl m ↦ (x, Memᴰ.head refl, matches-Grants x m)
    | inr n ↦ let (r, m, g) = first_release-Released l (rw n at h) in (r, Memᴰ.tail m, g)
  ]

  Released-first_release :
      (l : List HostRelease) {r : HostRelease}
      → Memᴰ r l
      → Grants now host machine r
      → (s : HostRelease) × (first_release now host machine l ≡ some s)
  unfolding first_release
  Released-first_release [] m g = elim m [ ]
  Released-first_release (x ∷ l) (Memᴰ.head e) g =
      (x, rw (Grants-matches x (subst (Grants now host machine) e g)))
  Released-first_release (x ∷ l) (Memᴰ.tail m) g =
      let (s, e) = Released-first_release l m g in
      elim (Bool-cases (release_matches now host machine x)) [
        | inl here ↦ (x, rw here)
        | inr there ↦ (s, rw there e)
      ]

module _ (now : ℕ) (releases : Releases) (machine : Machine) (host : Host) where
  -- The release step of the method, for a storage host.
  abbrev release_step : Done
  release_step =
      require_release host (some machine)
        (find_active_host_release now releases host (some machine))

  abbrev HasRelease : Type 0
  HasRelease =
      (l : List HostRelease) × (releases host.namespace ≡ ok l) × Released now host machine l

  release_step-HasRelease : release_step ≡ ok tt → HasRelease
  unfolding require_release find_active_host_release
  release_step-HasRelease h = elim (Result-cases (releases host.namespace)) [
    | inl (l, e) ↦ elim (Option-cases (first_release now host machine l)) [
      | inl n ↦ absurd (cc (rw (e, find_active_host_release, n, require_release) at h))
      | inr (r, f) ↦ (l, e, first_release-Released now host machine l f)
    ]
    | inr (e, f) ↦ absurd (cc (rw (f, find_active_host_release) at h))
  ]

  HasRelease-release_step : HasRelease → release_step ≡ ok tt
  unfolding require_release find_active_host_release
  HasRelease-release_step (l, e, (r, m, g)) =
      let (s, f) = Released-first_release now host machine l m g in ground (arith, e, f)

  module _ (hrm : RobotMachine) where
    abbrev authorized : Done
    authorized =
        authorize_destructive_provisioning_for now releases (some hrm) (some machine) (some host)

    authorized_parts :
        authorized ≡ ok tt
        → (host.spec.maintenance_mode ≡ false)
          × (((host.spec.lifecycle_class ≡ LifecycleClass.compute)
                × (host.spec.policy ≡ DestructivePolicy.always_clean_slate))
              ⊎ ((host.spec.lifecycle_class ≡ LifecycleClass.storage)
                  × (host.spec.policy ≡ DestructivePolicy.requires_external_release)
                  × (release_step ≡ ok tt)))
    unfolding authorize_destructive_provisioning_for
    authorized_parts h = ground arith

    authorized-MayWipe : authorized ≡ ok tt → MayWipe now releases machine host
    authorized-MayWipe h =
        let (m, c) = authorized_parts h in
        (
          m,
          elim c [
            | inl compute ↦ inl compute
            | inr (s, p, r) ↦ inr (s, p, release_step-HasRelease r)
          ],
        )

    MayWipe-authorized : MayWipe now releases machine host → authorized ≡ ok tt
    unfolding authorize_destructive_provisioning_for
    MayWipe-authorized (m, inl (c, p)) = ground arith
    MayWipe-authorized (m, inr (c, p, r)) = ground (arith, HasRelease-release_step r)

    -- The method lets a host be wiped exactly when the host is not in maintenance and is a compute
    -- host whose policy is AlwaysCleanSlate, or a storage host whose policy is
    -- RequiresExternalRelease with an unexpired WipeAndReinstall release for this host and Machine
    -- among those that the API server lists for the host's namespace.
    pub authorize-iff-MayWipe :
        (authorize_destructive_provisioning_for now releases (some hrm) (some machine) (some host)
          ≡ ok tt)
        ↔ MayWipe now releases machine host
    authorize-iff-MayWipe = (authorized-MayWipe, MayWipe-authorized)

-- Remediation may reset a host exactly when the host is a compute host, its policy is
-- AlwaysCleanSlate and it is not in maintenance: no release opens this gate.
pub authorize_reset-iff-compute :
    (host : Host)
    → (authorize_automated_hardware_reset (some host) ≡ ok tt) ↔ (
        (host.spec.maintenance_mode ≡ false)
        × (host.spec.lifecycle_class ≡ LifecycleClass.compute)
        × (host.spec.policy ≡ DestructivePolicy.always_clean_slate))
unfolding authorize_automated_hardware_reset
authorize_reset-iff-compute host = (λ h. ground arith, λ h. ground arith)

-- A host that remediation may reset may also be wiped, for every Machine and whatever releases the
-- API server lists.
pub authorize-authorize_reset :
    (now : ℕ) (releases : Releases) (hrm : RobotMachine) (machine : Machine) (host : Host)
    → authorize_automated_hardware_reset (some host) ≡ ok tt
    → authorize_destructive_provisioning_for now releases (some hrm) (some machine) (some host)
      ≡ ok tt
authorize-authorize_reset now releases hrm machine host h =
    let (m, c, p) = (authorize_reset-iff-compute host).0 h in
    MayWipe-authorized now releases machine host hrm (m, inl (c, p))
