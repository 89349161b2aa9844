-- ===== src/Provision/Cooldown.antt =====
-- stateActivateRescue: its cooldown, and what it sends.
use mathlib.Core.Path.{subst}
use cluster_api_provider_het.Prelude.{
  sym, ℕ, ◌+◌, ◌-◌, ◌<◌, ◌≡◌, ◌⊎◌, inl, inr, some, ◌∷◌, arith, Bool-cases, ltb,
}
use cluster_api_provider_het.Text.{Text}
use cluster_api_provider_het.Result.{ok, Result-cases}
use cluster_api_provider_het.Exec.Within.{after}
use cluster_api_provider_het.World.{World, activate_rescue, reset_server}
use cluster_api_provider_het.Provision.{Env, requeue_after, send_call}
use cluster_api_provider_het.Robot.{robot_activate_rescue, robot_reset_server}
use cluster_api_provider_het.Provision.Secrets.{get_ssh_key_fingerprint}
use cluster_api_provider_het.Provision.Rescue.{
  cooldown_left, call_activate_rescue, call_reset_server, rescue_and_reset, state_activate_rescue,
  reset_cooldown,
}

-- Within two minutes of the last reset that succeeded, stateActivateRescue changes nothing and
-- sends nothing, and comes back exactly when the two minutes are over.
pub state_activate_rescue-wait :
    (env : Env) (id : ℕ) (w : World) (t : ℕ)
    → w.machine.status.last_reset_time ≡ some t
    → env.now < t + reset_cooldown
    → (state_activate_rescue env id w ≡ (ok (requeue_after (t + reset_cooldown - env.now)), w))
      × (env.now + (t + reset_cooldown - env.now) ≡ t + reset_cooldown)
unfolding state_activate_rescue cooldown_left
state_activate_rescue-wait env id w t h g = ground arith

-- What stateActivateRescue sends: nothing, the activation, or the activation and then the reset.
abbrev pub Activation : ℕ → World → World → Type 0
Activation id w w' =
    (w'.calls ≡ w.calls)
    ⊎ ((fingerprint : Text) × ((w'.calls ≡ activate_rescue id fingerprint ∷ w.calls)
          ⊎ (w'.calls ≡ reset_server id ∷ activate_rescue id fingerprint ∷ w.calls)))

rescue_and_reset-Activation :
    (env : Env) (id : ℕ) (w : World) → Activation id w (after (rescue_and_reset env id) w)
unfolding rescue_and_reset call_activate_rescue call_reset_server send_call
rescue_and_reset-Activation env id w = elim (Result-cases (get_ssh_key_fingerprint env w.cluster)) [
  | inr (e, absent) ↦ inl (ground arith)
  | inl (fingerprint, there) ↦ elim (Result-cases (robot_activate_rescue env.http id fingerprint)) [
    | inr (e, bad) ↦ inr (fingerprint, inl (ground arith))
    | inl (active, good) ↦ elim (Result-cases (robot_reset_server env.http id)) [
      | inr (e, bad') ↦ inr (fingerprint, inr (ground arith))
      | inl (u, good') ↦ inr (fingerprint, inr (ground arith))
    ]
  ]
]

pub state_activate_rescue-Activation :
    (env : Env) (id : ℕ) (w : World) → Activation id w (after (state_activate_rescue env id) w)
unfolding state_activate_rescue
state_activate_rescue-Activation env id w =
    elim (Bool-cases (ltb 0 (cooldown_left env.now w.machine.status.last_reset_time))) [
      | inl waiting ↦ inl (ground arith)
      | inr over ↦
          let e : after (state_activate_rescue env id) w ≡ after (rescue_and_reset env id) w =
            ground arith in
          subst (Activation id w) (sym e) (rescue_and_reset-Activation env id w)
    ]
