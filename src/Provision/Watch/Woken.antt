-- ===== src/Provision/Watch/Woken.antt =====
-- Which machines a host release wakes.
use mathlib.Core.List.{Memᴰ}
use mathlib.Core.Path.{subst}
use cluster_api_provider_het.Prelude.{
  ◌≡◌, ◌↔◌, ◌⊎◌, refl, sym, ap, true, Bool-cases, inl, inr, List, [], ◌∷◌, arith,
}
use cluster_api_provider_het.Text.{Text, text}
use cluster_api_provider_het.Text.Equal.{text_eq_iff}
use cluster_api_provider_het.Result.{Result, ok}
use cluster_api_provider_het.Api.Machine.{RobotMachine}
use cluster_api_provider_het.Api.Release.{HostRelease}
use cluster_api_provider_het.Provision.Watch.{
  OwnerReference, Owned, names_released, has_released_owner, requests_for,
  map_host_release_to_machines,
}

member_cases : {A : Type 0} {a x : A} {l : List A} → Memᴰ a (x ∷ l) → (a ≡ x) ⊎ Memᴰ a l
member_cases (Memᴰ.head e) = inl e
member_cases (Memᴰ.tail m) = inr m

-- The owner reference names the CAPI Machine that the release is for.
abbrev pub Names : Text → HostRelease → OwnerReference → Type 0
Names version release o =
    (o.api_version ≡ version)
    × (o.kind ≡ text "Machine")
    × (o.name ≡ release.machine_ref.name)
    × (o.uid ≡ release.machine_ref.uid)

abbrev pub Owns : Text → HostRelease → List OwnerReference → Type 0
Owns version release owners = (o : OwnerReference) × Memᴰ o owners × Names version release o

-- A machine of the list at the key, one of whose owners is the Machine of the release.
abbrev pub Wanted : Text → HostRelease → List Owned → Text × Text → Type 0
Wanted version release machines key =
    (hrm : RobotMachine) × (owners : List OwnerReference) × Memᴰ (hrm, owners) machines
    × Owns version release owners
    × ((hrm.namespace, hrm.name) ≡ key)

names_released-Names :
    (version : Text) (release : HostRelease) (o : OwnerReference)
    → (names_released version release o ≡ true) ↔ Names version release o
unfolding names_released
names_released-Names version release o = ground (
  arith,
  text_eq_iff o.api_version version,
  text_eq_iff o.kind (text "Machine"),
  text_eq_iff o.name release.machine_ref.name,
  text_eq_iff o.uid release.machine_ref.uid,
)

owner-Owns :
    (version : Text) (release : HostRelease) (l : List OwnerReference)
    → has_released_owner version release l ≡ true
    → Owns version release l
unfolding has_released_owner
owner-Owns version release [] h = cc
owner-Owns version release (o ∷ l) h = elim (Bool-cases (names_released version release o)) [
  | inl t ↦ (o, Memᴰ.head refl, (names_released-Names version release o).0 t)
  | inr f ↦ let (x, m, n) = owner-Owns version release l (rw f at h) in (x, Memᴰ.tail m, n)
]

Owns-owner :
    (version : Text) (release : HostRelease) (l : List OwnerReference) {o : OwnerReference}
    → Memᴰ o l
    → Names version release o
    → has_released_owner version release l ≡ true
unfolding has_released_owner
Owns-owner version release [] m n = elim m [ ]
Owns-owner version release (x ∷ l) (Memᴰ.head e) n =
    rw ((names_released-Names version release x).1 (subst (Names version release) e n))
Owns-owner version release (x ∷ l) (Memᴰ.tail m) n =
    elim (Bool-cases (names_released version release x)) [
      | inl t ↦ rw t
      | inr f ↦ rw (f, Owns-owner version release l m n)
    ]

requests-Wanted :
    (version : Text) (release : HostRelease) (l : List Owned) {key : Text × Text}
    → Memᴰ key (requests_for version release l)
    → Wanted version release l key
unfolding requests_for
requests-Wanted version release [] m = elim m [ ]
requests-Wanted version release ((hrm, owners) ∷ l) m =
    elim (Bool-cases (has_released_owner version release owners)) [
      | inl t ↦ elim (member_cases (rw t at m)) [
        | inl e ↦ (hrm, owners, Memᴰ.head refl, owner-Owns version release owners t, sym e)
        | inr n ↦
            let (h, o, at, owned, e) = requests-Wanted version release l n in
            (h, o, Memᴰ.tail at, owned, e)
      ]
      | inr f ↦
          let (h, o, at, owned, e) = requests-Wanted version release l (rw f at m) in
          (h, o, Memᴰ.tail at, owned, e)
    ]

Wanted-requests :
    (version : Text) (release : HostRelease) (l : List Owned) {hrm : RobotMachine}
    {owners : List OwnerReference}
    → Memᴰ (hrm, owners) l
    → has_released_owner version release owners ≡ true
    → Memᴰ (hrm.namespace, hrm.name) (requests_for version release l)
unfolding requests_for
Wanted-requests version release [] m t = elim m [ ]
Wanted-requests version release ((hrm, owners) ∷ l) (Memᴰ.head e) t =
    rw (subst (λ x. has_released_owner version release x.1 ≡ true) e t)
      (Memᴰ.head (ap (λ x. (x.0.namespace, x.0.name)) e))
Wanted-requests version release ((hrm, owners) ∷ l) (Memᴰ.tail m) t =
    let rest = Wanted-requests version release l m t in
    elim (Bool-cases (has_released_owner version release owners)) [
      | inl here ↦ rw here (Memᴰ.tail rest)
      | inr there ↦ rw there rest
    ]

-- Where the machines of the release's namespace are listed, the release wakes exactly the keys of
-- the machines that have among their owners the CAPI Machine of the release, by name and uid.
pub map_host_release_to_machines-Wanted :
    (version : Text) (list : Text → Result (List Owned)) (release : HostRelease)
    (machines : List Owned) (key : Text × Text)
    → list release.namespace ≡ ok machines
    → Memᴰ key (map_host_release_to_machines version list release)
      ↔ Wanted version release machines key
unfolding map_host_release_to_machines
map_host_release_to_machines-Wanted version list release machines key e =
    rw (e, map_host_release_to_machines)
      (
        λ m. requests-Wanted version release machines m,
        λ (hrm, owners, at, (o, among, names), same).
            subst (λ k. Memᴰ k (requests_for version release machines)) same
              (Wanted-requests version release machines at
                (Owns-owner version release owners among names)),
      )
