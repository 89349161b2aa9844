-- ===== src/Provision/Keeps.antt =====
-- The calls of the steps that install a system, as calls of a predicate p.
use mathlib.Core.Path.{subst}
use cluster_api_provider_het.Prelude.{sym, ℕ, ◌≡◌, List, [], ◌∷◌, arith, Bool, true, inl, inr}
use cluster_api_provider_het.Text.{Text}
use cluster_api_provider_het.Result.{Result-cases}
use cluster_api_provider_het.Exec.{lift}
use cluster_api_provider_het.Exec.Within.{after, bind-within, then-within}
use cluster_api_provider_het.Api.Host.{Host}
use cluster_api_provider_het.World.{
  World, Call, wipe_all_disks, install_talos, install_flatcar, fix_boot_order, deactivate_rescue,
  reboot,
}
use cluster_api_provider_het.World.Calls.{Adds, same, send, Adds-trans}
use cluster_api_provider_het.SshRescue.Hardware.{HardwareInfo}
use cluster_api_provider_het.SshRescue.Client.{detect_hardware}
use cluster_api_provider_het.Ownership.Kept.{record_hardware-Frame}
use cluster_api_provider_het.Provision.{Env, send_call, set_state, with_status}
use cluster_api_provider_het.Provision.Install.{
  detect_and_record, resolve_disk, call_wipe, prepare_disks, write_talos, talos_written,
  leave_rescue, set_provider_id, install_talos_in_rescue,
}
use cluster_api_provider_het.Provision.Install.Flatcar.{
  flatcar_written, write_flatcar, install_flatcar_in_rescue,
}

module _ (p : Call → Bool) (env : Env) (id : ℕ) (ip : Text) where
  abbrev R : World → World → Type 0
  R w w' = Adds p w.calls w'.calls

  R-trans : (u v w : World) → R u v → R v w → R u w
  R-trans u v w a b = Adds-trans p a b

  kept : {l m : List Call} → m ≡ l → Adds p l m
  kept {l} e = subst (λ m. Adds p l m) (sym e) same

  detect_and_record-Adds : (w : World) → R w (after (detect_and_record env ip) w)
  unfolding detect_and_record
  detect_and_record-Adds w = elim (Result-cases (detect_hardware env.network ip)) [
    | inr (e, bad) ↦ kept (ground arith)
    | inl (hw, good) ↦
        let u =
          with_status (λ st. record st { primary_mac = hw.primary_mac; gateway_ip = hw.gateway_ip })
            w in
        kept (
          ground (
            arith,
            record_hardware-Frame env.kube u.machine.namespace u.machine.status.host_ref hw u,
          ))
  ]

  resolve_disk-Adds : (w : World) (hw : HardwareInfo) → R w (after (resolve_disk ip hw) w)
  unfolding resolve_disk
  resolve_disk-Adds w hw = kept (ground arith)

  call_wipe-Adds :
      ((disks : List Text) → p (wipe_all_disks ip disks) ≡ true)
      → (w : World) (disks : List Text) → R w (after (call_wipe env ip disks) w)
  unfolding call_wipe send_call
  call_wipe-Adds h w [] = same
  call_wipe-Adds h w (d ∷ disks) = send (wipe_all_disks ip (d ∷ disks)) (h (d ∷ disks)) same

  prepare_disks-Adds :
      ((disks : List Text) → p (wipe_all_disks ip disks) ≡ true)
      → (w : World) → R w (after (prepare_disks env ip) w)
  unfolding prepare_disks
  prepare_disks-Adds h w =
      bind-within R (λ s. same) R-trans (detect_and_record env ip) _ w (detect_and_record-Adds w)
        λ hw u.
          bind-within R (λ s. same) R-trans (resolve_disk ip hw) _ u (resolve_disk-Adds u hw)
            λ disk v.
              then-within R (λ s. same) R-trans (call_wipe env ip hw.nvme_disks) _ v
                (call_wipe-Adds h v hw.nvme_disks) λ x. same

  write_talos-Adds :
      ((disk : Text) → p (install_talos ip disk) ≡ true)
      → p (fix_boot_order ip) ≡ true
      → (w : World) (disk : Text) → R w (after (write_talos env ip disk) w)
  unfolding write_talos send_call
  write_talos-Adds h g w disk =
      let written = record w { calls = install_talos ip disk ∷ w.calls } in
      Adds-trans p (send (install_talos ip disk) (h disk) same) (
        then-within R (λ s. same) R-trans (lift (talos_written env ip disk w)) _ written same
          λ v. send (fix_boot_order ip) g same)

  write_flatcar-Adds :
      ((disk ignition : Text) → p (install_flatcar ip disk ignition) ≡ true)
      → p (fix_boot_order ip) ≡ true
      → (w : World) (disk ignition : Text) → R w (after (write_flatcar env ip disk ignition) w)
  unfolding write_flatcar send_call
  write_flatcar-Adds h g w disk ignition =
      let written = record w { calls = install_flatcar ip disk ignition ∷ w.calls } in
      Adds-trans p (send (install_flatcar ip disk ignition) (h disk ignition) same) (
        then-within R (λ s. same) R-trans (lift (flatcar_written env ip disk ignition w)) _ written
          same λ v. send (fix_boot_order ip) g same)

  leave_rescue-Adds :
      p (deactivate_rescue id) ≡ true
      → p (reboot ip) ≡ true
      → (w : World) → R w (after (leave_rescue env id ip) w)
  unfolding leave_rescue send_call
  leave_rescue-Adds h g w = send (reboot ip) g (send (deactivate_rescue id) h same)

  -- p allows what an installation of Talos sends.
  abbrev pub Allows : Type 0
  Allows =
      ((disks : List Text) → p (wipe_all_disks ip disks) ≡ true)
      × ((disk : Text) → p (install_talos ip disk) ≡ true)
      × ((disk ignition : Text) → p (install_flatcar ip disk ignition) ≡ true)
      × (p (fix_boot_order ip) ≡ true)
      × (p (deactivate_rescue id) ≡ true)
      × (p (reboot ip) ≡ true)

  pub install_talos-Adds : Allows → (w : World) → R w (after (install_talos_in_rescue env id ip) w)
  unfolding install_talos_in_rescue leave_rescue send_call set_state
  install_talos-Adds (wipe, talos, flatcar, fix, off, go) w =
      bind-within R (λ s. same) R-trans (prepare_disks env ip) _ w (prepare_disks-Adds wipe w)
        λ (hw, disk) u.
          then-within R (λ s. same) R-trans (write_talos env ip disk) _ u
            (write_talos-Adds talos fix u disk) λ v. leave_rescue-Adds off go v

  pub install_flatcar-Adds :
      Allows
      → (hrh : Host) (bootstrap key : Text) (w : World)
      → R w (after (install_flatcar_in_rescue env hrh id ip bootstrap key) w)
  unfolding install_flatcar_in_rescue leave_rescue send_call set_state set_provider_id
  install_flatcar-Adds (wipe, talos, flatcar, fix, off, go) hrh bootstrap key w =
      bind-within R (λ s. same) R-trans (prepare_disks env ip) _ w (prepare_disks-Adds wipe w)
        λ (hw, disk) u.
          bind-within R (λ s. same) R-trans (lift _) _ u same
            λ ignition v.
              then-within R (λ s. same) R-trans (write_flatcar env ip disk ignition) _ v
                (write_flatcar-Adds flatcar fix v disk ignition) λ x. leave_rescue-Adds off go x
