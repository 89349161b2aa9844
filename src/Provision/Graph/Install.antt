-- ===== src/Provision/Graph/Install.antt =====
-- The state of a machine during an installation.
use cluster_api_provider_het.Prelude.{ℕ, ◌≡◌, ◌⊎◌, inl, inr, refl, ◌∙◌, List, [], ◌∷◌, arith}
use cluster_api_provider_het.Text.{Text}
use cluster_api_provider_het.Result.{Result-cases}
use cluster_api_provider_het.Exec.{lift}
use cluster_api_provider_het.Exec.Within.{after, bind-within, then-within}
use cluster_api_provider_het.Api.Host.{Host}
use cluster_api_provider_het.Api.Machine.{installing}
use cluster_api_provider_het.World.{World}
use cluster_api_provider_het.SshRescue.Hardware.{HardwareInfo}
use cluster_api_provider_het.SshRescue.Client.{detect_hardware}
use cluster_api_provider_het.Ownership.Kept.{record_hardware-Frame}
use cluster_api_provider_het.Provision.{Env, send_call, set_state, with_status}
use cluster_api_provider_het.Provision.Install.{
  detect_and_record, resolve_disk, call_wipe, prepare_disks, write_talos, talos_written,
  leave_rescue, set_provider_id, install_talos_in_rescue,
}
use cluster_api_provider_het.Provision.Install.Flatcar.{
  flatcar_written, write_flatcar, install_flatcar_in_rescue,
}
use cluster_api_provider_het.Provision.Graph.{state_of}

-- The state is the one before, or the disk is installed.
abbrev pub Installs : World → World → Type 0
Installs w w' = (state_of w' ≡ state_of w) ⊎ (state_of w' ≡ installing)

pub Installs-trans : (u v w : World) → Installs u v → Installs v w → Installs u w
Installs-trans u v w a (inr e) = inr e
Installs-trans u v w (inl d) (inl e) = inl (e ∙ d)
Installs-trans u v w (inr d) (inl e) = inr (e ∙ d)

pub here : (s : World) → Installs s s
here s = inl refl

module _ (env : Env) (id : ℕ) (ip : Text) where
  detect-state : (w : World) → state_of (after (detect_and_record env ip) w) ≡ state_of w
  unfolding detect_and_record
  detect-state w = elim (Result-cases (detect_hardware env.network ip)) [
    | inr (e, bad) ↦ ground arith
    | inl (hw, good) ↦
        let u =
          with_status (λ st. record st { primary_mac = hw.primary_mac; gateway_ip = hw.gateway_ip })
            w in
        ground
          (arith, record_hardware-Frame env.kube u.machine.namespace u.machine.status.host_ref hw u)
  ]

  resolve-state :
      (hw : HardwareInfo) (w : World) → state_of (after (resolve_disk ip hw) w) ≡ state_of w
  unfolding resolve_disk
  resolve-state hw w = ground arith

  wipe-state :
      (disks : List Text) (w : World) → state_of (after (call_wipe env ip disks) w) ≡ state_of w
  unfolding call_wipe send_call
  wipe-state [] w = refl
  wipe-state (d ∷ disks) w = refl

  prepare-Installs : (w : World) → Installs w (after (prepare_disks env ip) w)
  unfolding prepare_disks
  prepare-Installs w =
      bind-within Installs here Installs-trans (detect_and_record env ip) _ w (inl (detect-state w))
        λ hw u.
          bind-within Installs here Installs-trans (resolve_disk ip hw) _ u
            (inl (resolve-state hw u))
            λ disk v.
              then-within Installs here Installs-trans (call_wipe env ip hw.nvme_disks) _ v
                (inl (wipe-state hw.nvme_disks v)) here

  talos-state :
      (disk : Text) (w : World) → state_of (after (write_talos env ip disk) w) ≡ state_of w
  unfolding write_talos send_call
  talos-state disk w = elim (Result-cases (talos_written env ip disk w)) [
    | inr (e, bad) ↦ ground arith
    | inl (u, good) ↦ ground arith
  ]

  flatcar-state :
      (disk ignition : Text) (w : World)
      → state_of (after (write_flatcar env ip disk ignition) w) ≡ state_of w
  unfolding write_flatcar send_call
  flatcar-state disk ignition w = elim (Result-cases (flatcar_written env ip disk ignition w)) [
    | inr (e, bad) ↦ ground arith
    | inl (u, good) ↦ ground arith
  ]

  pub install_talos-Installs :
      (w : World) → Installs w (after (install_talos_in_rescue env id ip) w)
  unfolding install_talos_in_rescue leave_rescue send_call set_state
  install_talos-Installs w =
      bind-within Installs here Installs-trans (prepare_disks env ip) _ w (prepare-Installs w)
        λ (hw, disk) u.
          then-within Installs here Installs-trans (write_talos env ip disk) _ u
            (inl (talos-state disk u)) λ v. inr refl

  pub install_flatcar-Installs :
      (hrh : Host) (bootstrap key : Text) (w : World)
      → Installs w (after (install_flatcar_in_rescue env hrh id ip bootstrap key) w)
  unfolding install_flatcar_in_rescue leave_rescue send_call set_state set_provider_id
  install_flatcar-Installs hrh bootstrap key w =
      bind-within Installs here Installs-trans (prepare_disks env ip) _ w (prepare-Installs w)
        λ (hw, disk) u. bind-within Installs here Installs-trans (lift _) _ u (here u) λ ignition v.
          then-within Installs here Installs-trans (write_flatcar env ip disk ignition) _ v
            (inl (flatcar-state disk ignition v)) λ x. inr refl
