-- ===== src/Provision/Rescue.antt =====
-- stateActivateRescue and stateCheckRescueActive: into the rescue system.
use cluster_api_provider_het.Prelude.{
  ℕ, ◌+◌, ◌-◌, Bool, true, false, Option, none, some, [], if◌then◌else◌, ltb,
}
use cluster_api_provider_het.Text.{Text, text, text_eq, trim_space}
use cluster_api_provider_het.Text.Decimal.{itoa}
use cluster_api_provider_het.Result.{ok, err, map_err}
use cluster_api_provider_het.Exec.{Exec, pure, lift, wrap, modify, ◌>>=◌, ◌>>◌}
use cluster_api_provider_het.Api.Machine.{activating_rescue, in_rescue}
use cluster_api_provider_het.World.{World, Call, activate_rescue, reset_server}
use cluster_api_provider_het.SshRescue.Client.{connect, run, is_reachable}
use cluster_api_provider_het.Robot.{robot_activate_rescue, robot_reset_server, robot_rescue_status}
use cluster_api_provider_het.Talos.{is_up}
use cluster_api_provider_het.Provision.{
  Env, Outcome, requeue_after, with_status, set_state, send_call, wrapped, requeue_after_short,
  requeue_after_long,
}
use cluster_api_provider_het.Provision.Secrets.{get_ssh_key_fingerprint, get_ssh_private_key}

abbrev pub reset_cooldown : ℕ
reset_cooldown = 120000000000

-- How long the cooldown still runs: resetCooldown - time.Since(t) where that is positive.
unfoldable pub cooldown_left : ℕ → Option ℕ → ℕ
cooldown_left now none = 0
cooldown_left now (some t) = t + reset_cooldown - now

-- ActivateRescue of the robot client: the request leaves, then it is answered.
unfoldable pub call_activate_rescue : Env → ℕ → Text → Exec World Bool
call_activate_rescue env id fingerprint = do
  send_call (activate_rescue id fingerprint)
  lift (robot_activate_rescue env.http id fingerprint)

unfoldable pub call_reset_server : Env → ℕ → Exec World (Unit {0})
call_reset_server env id = do send_call (reset_server id); lift (robot_reset_server env.http id)

-- Behind the cooldown: activate the rescue system, then reset.
unfoldable pub rescue_and_reset : Env → ℕ → Exec World Outcome
unfolding call_activate_rescue call_reset_server send_call
rescue_and_reset env id w =
    (do
      fingerprint ← lift (
          map_err (wrapped (text "get SSH key fingerprint") [])
            (get_ssh_key_fingerprint env w.cluster))
      wrap (wrapped (text "activate rescue on server ") (itoa id))
          (call_activate_rescue env id fingerprint)
      wrap (wrapped (text "reset server ") (itoa id)) (call_reset_server env id)
      modify (
          with_status λ st. record st {
            last_reset_time = some env.now;
            provisioning_state = activating_rescue;
          })
      pure (requeue_after 240000000000))
      w

unfoldable pub state_activate_rescue : Env → ℕ → Exec World Outcome
unfolding rescue_and_reset cooldown_left
state_activate_rescue env id w =
    let left = cooldown_left env.now w.machine.status.last_reset_time in
    (if ltb 0 left then pure (requeue_after left) else rescue_and_reset env id) w

pub hostname_command : Text
hostname_command =
    text
      "([ \"$(hostname)\" = \"rescue\" ] || test -f /etc/hetzner-build) && echo RESCUE || echo NOT_RESCUE"

-- Does the server let the controller in, and with what answer to the hostname test?
unfoldable pub rescue_shell : Env → Text → World → Option Bool
rescue_shell env ip w =
    if is_reachable env.network ip
    then elim (get_ssh_private_key env w.cluster) [
      | err e ↦ none
      | ok key ↦ elim (connect env.network ip key) [
        | err e ↦ none
        | ok u ↦
            some (text_eq (trim_space ((run env.network ip hostname_command).out)) (text "RESCUE"))
      ]
    ]
    else none

-- talos.WipeSystemDisk, whose error is logged only
unfoldable pub call_wipe_system_disk : Env → Text → Exec World (Unit {0})
unfolding send_call
call_wipe_system_disk env ip = send_call (Call.wipe_system_disk ip)

-- Behind the SSH check: what the Robot API says about the rescue system.
unfoldable pub check_rescue_status : Env → ℕ → Text → Exec World Outcome
unfolding call_wipe_system_disk state_activate_rescue
check_rescue_status env id ip = elim (robot_rescue_status env.http id) [
  | err e ↦ pure (requeue_after requeue_after_long)
  | ok active ↦
      if is_up env.grpc ip
      then (do call_wipe_system_disk env ip; state_activate_rescue env id)
      else pure (requeue_after (if active then requeue_after_long else 120000000000))
]

unfoldable pub with_rescue_shell : Env → ℕ → Text → Option Bool → Exec World Outcome
unfolding check_rescue_status state_activate_rescue set_state
with_rescue_shell env id ip (some true) = do
  set_state in_rescue
  pure (requeue_after requeue_after_short)
with_rescue_shell env id ip (some false) = state_activate_rescue env id
with_rescue_shell env id ip none = check_rescue_status env id ip

unfoldable pub state_check_rescue_active : Env → ℕ → Text → Exec World Outcome
unfolding with_rescue_shell rescue_shell
state_check_rescue_active env id ip w = with_rescue_shell env id ip (rescue_shell env ip w) w
