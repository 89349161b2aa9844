-- ===== src/SshRescue/Disk.antt =====
-- Which disk ResolveInstallDiskFromInfo chooses.
use mathlib.Core.List.{Memᴰ}
use mathlib.Core.List.Memᴰ
use cluster_api_provider_het.Prelude.{
  ◌≡◌, ◌⊎◌, inl, inr, refl, sym, true, false, List, [], ◌∷◌, arith, Bool-cases,
}
use cluster_api_provider_het.Text.{Text, text_eq}
use cluster_api_provider_het.Text.Equal.{text_eq_iff}
use cluster_api_provider_het.Result.{ok}
use cluster_api_provider_het.SshRescue.Hardware.{
  HardwareInfo, has_key, safe_disks, choose_disk, resolve_install_disk_from_info,
}

-- A detected disk that carries no Ceph data.
abbrev pub IsSafe : HardwareInfo → Text → Type 0
IsSafe hw d = Memᴰ d hw.nvme_disks × (has_key d hw.ceph_disks ≡ false)

has_key-mem : (k : Text) (m : List Text) → has_key k m ≡ true → Memᴰ k m
unfolding has_key
has_key-mem k [] h = cc
has_key-mem k (j ∷ m) h = elim (Bool-cases (text_eq j k)) [
  | inl e ↦ Memᴰ.head (sym ((text_eq_iff j k).0 e))
  | inr n ↦ Memᴰ.tail (has_key-mem k m (ground arith))
]

mem-has_key : (k : Text) (m : List Text) → Memᴰ k m → has_key k m ≡ true
unfolding has_key
mem-has_key k [] h = elim h [ ]
mem-has_key k (j ∷ m) (Memᴰ.head e) = ground (arith, text_eq_iff j k)
mem-has_key k (j ∷ m) (Memᴰ.tail h) = ground (arith, mem-has_key k m h)

module _ (ceph : List Text) where
  safe_disks_sound :
      (l : List Text) {d : Text} → Memᴰ d (safe_disks ceph l) → Memᴰ d l × (has_key d ceph ≡ false)
  unfolding safe_disks
  safe_disks_sound [] m = elim m [ ]
  safe_disks_sound (x ∷ l) {d} m = elim (Bool-cases (has_key x ceph)) [
    | inl c ↦ let (a, b) = safe_disks_sound l (rw c at m) in (Memᴰ.tail a, b)
    | inr n ↦ elim (Memᴰ.cases_cons (rw n at m)) [
      | inl e ↦ (Memᴰ.head e, rw e n)
      | inr m' ↦ let (a, b) = safe_disks_sound l m' in (Memᴰ.tail a, b)
    ]
  ]

  safe_disks-complete :
      (l : List Text) {d : Text} → Memᴰ d l → has_key d ceph ≡ false → Memᴰ d (safe_disks ceph l)
  unfolding safe_disks
  safe_disks-complete [] m n = elim m [ ]
  safe_disks-complete (x ∷ l) {d} (Memᴰ.head e) n =
      let n' : has_key x ceph ≡ false = rw (← e) n in rw n' (Memᴰ.head e)
  safe_disks-complete (x ∷ l) {d} (Memᴰ.tail m) n =
      let rest = safe_disks-complete l m n in
      elim (Bool-cases (has_key x ceph)) [ inl c ↦ rw c rest | inr c ↦ rw c (Memᴰ.tail rest) ]

-- The choice among safe disks.
choose_disk-mem :
    (safes disks : List Text) (configured : Text) {d : Text}
    → Memᴰ d safes
    → (c : Text) × (choose_disk safes disks configured ≡ ok c)
      × Memᴰ c safes
      × ((c ≡ configured) ⊎ (has_key configured safes ≡ false))
unfolding choose_disk
choose_disk-mem [] disks configured m = elim m [ ]
choose_disk-mem (s ∷ safes) disks configured m =
    elim (Bool-cases (has_key configured (s ∷ safes))) [
      | inl h ↦ (configured, rw h, has_key-mem configured (s ∷ safes) h, inl refl)
      | inr n ↦ (s, rw n, Memᴰ.head refl, inr n)
    ]

-- Where some detected disk carries no Ceph data, the choice succeeds with a detected disk that
-- carries none, and it is the configured disk unless that one is not such a disk.
pub resolve_install_disk-IsSafe :
    (hw : HardwareInfo) (configured d : Text)
    → IsSafe hw d
    → (c : Text) × (resolve_install_disk_from_info hw configured ≡ ok c)
      × IsSafe hw c
      × ((c ≡ configured) ⊎ ¬ IsSafe hw configured)
unfolding resolve_install_disk_from_info
resolve_install_disk-IsSafe hw configured d (m, n) =
    let safes = safe_disks hw.ceph_disks hw.nvme_disks in
    let (c, e, s, p) =
      choose_disk-mem safes hw.nvme_disks configured
        (safe_disks-complete hw.ceph_disks hw.nvme_disks m n) in
    (
      c,
      e,
      safe_disks_sound hw.ceph_disks hw.nvme_disks s,
      elim p [
        | inl q ↦ inl q
        | inr f ↦ inr (λ safe. cc (
          f,
          mem-has_key configured safes
              (safe_disks-complete hw.ceph_disks hw.nvme_disks safe.0 safe.1),
        ))
      ],
    )
