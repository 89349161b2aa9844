-- ===== src/SshRescue/Wipe/Confirmed.antt =====
-- When WipeAllDisks reports success.
use cluster_api_provider_het.Prelude.{
  ◌≡◌, ◌≢◌, ◌↔◌, ◌⊎◌, inl, inr, refl, sym, ◌∙◌, true, none, some, List, [], ◌∷◌, arith, Bool-cases,
  Option-cases,
}
use cluster_api_provider_het.Text.{Text, text, text_eq, has_prefix, trim_prefix, trim_space, lines}
use cluster_api_provider_het.Text.Equal.{text_eq_iff}
use cluster_api_provider_het.SshRescue.Hardware.{has_key, add_key}
use cluster_api_provider_het.SshRescue.Wipe.{
  Output, wipe_command, confirmed, missing, check_missing, check_wipe, wipe_all_disks,
}

-- A line of the output, trimmed, is `WIPED=` and the disk.
pub IsConfirmed : List Text → Text → Type 0
IsConfirmed [] d = ⊥
IsConfirmed (raw ∷ rest) d =
    ((has_prefix (trim_space raw) (text "WIPED=") ≡ true)
      × (trim_prefix (trim_space raw) (text "WIPED=") ≡ d))
    ⊎ IsConfirmed rest d

abbrev pub AllConfirmed : List Text → List Text → Type 0
AllConfirmed out [] = Unit {0}
AllConfirmed out (d ∷ l) = IsConfirmed out d × AllConfirmed out l

has_key-cons :
    (k j : Text) (m : List Text) → (has_key k (j ∷ m) ≡ true) ↔ ((j ≡ k) ⊎ (has_key k m ≡ true))
unfolding has_key
has_key-cons k j m = (
  λ h. elim (Bool-cases (text_eq j k)) [
    | inl e ↦ inl ((text_eq_iff j k).0 e)
    | inr n ↦ inr (ground arith)
  ],
  λ p. elim p [ inl e ↦ rw ((text_eq_iff j k).1 e) | inr q ↦ ground arith ],
)

has_key-add_key :
    (k j : Text) (m : List Text)
    → (has_key k (add_key j m) ≡ true) ↔ ((j ≡ k) ⊎ (has_key k m ≡ true))
unfolding add_key
has_key-add_key k j m = elim (Bool-cases (has_key j m)) [
  | inl h ↦ rw h (inr, λ p. elim p [ inl e ↦ rw (← e) h | inr q ↦ q ])
  | inr n ↦ rw n (has_key-cons k j m)
]

confirmed-IsConfirmed :
    (out : List Text) (d : Text) → (has_key d (confirmed out) ≡ true) ↔ IsConfirmed out d
unfolding confirmed IsConfirmed has_key
confirmed-IsConfirmed [] d = (λ h. cc h, λ h. absurd h)
confirmed-IsConfirmed (raw ∷ rest) d =
    let ih = confirmed-IsConfirmed rest d in
    let disk = trim_prefix (trim_space raw) (text "WIPED=") in
    elim (Bool-cases (has_prefix (trim_space raw) (text "WIPED="))) [
      | inl p ↦ rw p (
        λ h. elim ((has_key-add_key d disk (confirmed rest)).0 h) [
          | inl e ↦ inl (refl, e)
          | inr q ↦ inr (ih.0 q)
        ],
        λ q.
            (has_key-add_key d disk (confirmed rest)).1
              (elim q [ inl (a, e) ↦ inl e | inr r ↦ inr (ih.1 r) ]),
      )
      | inr n ↦ rw n (λ h. inr (ih.0 h), λ q. elim q [ inl (a, e) ↦ cc a | inr r ↦ ih.1 r ])
    ]

missing-AllConfirmed :
    (out disks : List Text) → (missing (confirmed out) disks ≡ []) ↔ AllConfirmed out disks
unfolding missing
missing-AllConfirmed out [] = (λ h. tt, λ h. refl)
missing-AllConfirmed out (d ∷ disks) =
    let c = confirmed-IsConfirmed out d in
    let m = missing-AllConfirmed out disks in
    elim (Bool-cases (has_key d (confirmed out))) [
      | inl h ↦ rw h (λ e. (c.0 h, m.0 e), λ q. m.1 q.1)
      | inr n ↦ rw n (λ e. cc, λ q. cc (n, c.1 q.0))
    ]

check_missing-none : (l : List Text) → (check_missing l ≡ none) ↔ (l ≡ [])
unfolding check_missing
check_missing-none [] = (λ h. refl, λ h. refl)
check_missing-none (d ∷ l) = (λ h. cc, λ h. cc)

check_wipe-failed :
    (disks : List Text) (ran : Output) (e : Text)
    → ran.failure ≡ some e
    → (check_wipe disks ran).failure ≢ none
unfolding check_wipe
check_wipe-failed disks ran e f = ground arith

check_wipe-ran :
    (disks : List Text) (ran : Output)
    → ran.failure ≡ none
    → (check_wipe disks ran).failure ≡ check_missing (missing (confirmed (lines ran.out)) disks)
unfolding check_wipe
check_wipe-ran disks ran f = ground arith

-- On disks that are named, WipeAllDisks reports success exactly when the command ran without an
-- error and its output has, for every one of the disks, a line that is `WIPED=` and that disk up
-- to white space at its ends.
pub wipe_all_disks-confirmed :
    (run : Text → Output) (d : Text) (disks : List Text)
    → ((wipe_all_disks run (d ∷ disks)).failure ≡ none) ↔ (
        ((run (wipe_command (d ∷ disks))).failure ≡ none)
        × AllConfirmed (lines (run (wipe_command (d ∷ disks))).out) (d ∷ disks))
unfolding wipe_all_disks
wipe_all_disks-confirmed run d disks =
    let ran = run (wipe_command (d ∷ disks)) in
    let left = missing (confirmed (lines ran.out)) (d ∷ disks) in
    let m = missing-AllConfirmed (lines ran.out) (d ∷ disks) in
    let c = check_missing-none left in
    elim (Option-cases ran.failure) [
      | inl f ↦ (
        λ h. (f, m.0 (c.0 (sym (check_wipe-ran (d ∷ disks) ran f) ∙ h))),
        λ q. check_wipe-ran (d ∷ disks) ran f ∙ c.1 (m.1 q.1),
      )
      | inr (e, f) ↦ (λ h. absurd (check_wipe-failed (d ∷ disks) ran e f h), λ q. cc (f, q.0))
    ]
