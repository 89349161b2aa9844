-- ===== src/Ownership/Claim.antt =====
-- resolveHost: the host of a machine that is being provisioned, claimed if need be.
use cluster_api_provider_het.Prelude.{
  Bool, true, false, Option, none, some, List, [], ◌∷◌, ◌&&◌, if◌then◌else◌, not,
}
use cluster_api_provider_het.Text.{Text, text, concat, is_empty}
use cluster_api_provider_het.Result.{map_err}
use cluster_api_provider_het.Exec.{Exec, pure, throw, lift, wrap, modify, ◌>>=◌, ◌>>◌}
use cluster_api_provider_het.Api.Host.{Host, HostState}
use cluster_api_provider_het.Api.Machine.{RobotMachine}
use cluster_api_provider_het.World.{World, Kube, get_host, list_hosts, patch_host}
use cluster_api_provider_het.Ownership.{
  machine_reference_for, host_is_claimed_by, set_host_consumer_ref, ensure_host_consumer_ref,
}

-- hrm.Status.HostRef = name
abbrev pub with_host_ref : Text → RobotMachine → RobotMachine
with_host_ref name hrm = record hrm { status = record hrm.status { host_ref = name } }

unfoldable pub set_host_ref : Text → Exec World (Unit {0})
set_host_ref name = modify (λ w. record w { machine = with_host_ref name w.machine })

-- p != nil && p.Name != ""
abbrev pub named : Option Text → Option Text
named none = none
named (some []) = none
named (some (c ∷ s)) = some (c ∷ s)

abbrev pub is_available : HostState → Bool
is_available HostState.available = true
is_available _ = false

pub state_text : HostState → Text
state_text HostState.unset = []
state_text HostState.available = text "Available"
state_text HostState.claimed = text "Claimed"
state_text HostState.provisioned = text "Provisioned"
state_text (HostState.other s) = s

pub get_error : Text → Text → Text → Text
get_error what name e = concat (what ∷ name ∷ text ": " ∷ e ∷ [])

pub maintenance_error : Text → Text
maintenance_error name =
    concat (text "host " ∷ name ∷ text " is in maintenanceMode and cannot be claimed" ∷ [])

pub not_available : Text → HostState → Text
not_available name state =
    concat
      (text "host " ∷ name ∷ text " is not Available (state=" ∷ state_text state ∷ text ")" ∷ [])

-- The host after a claim.
unfoldable pub claimed_host : RobotMachine → Host → Host
unfolding set_host_consumer_ref machine_reference_for
claimed_host hrm hrh =
    let host = set_host_consumer_ref hrh (machine_reference_for hrm) in
    record host { status = record (host.status) { state = HostState.claimed; dirty_reason = [] } }

-- "Fetch + claim the candidate host."
unfoldable pub claim_candidate : Kube → RobotMachine → Text → Exec World Host
unfolding claimed_host set_host_ref
claim_candidate k hrm name = do
  hrh ← wrap (get_error (text "get candidate host ") name) (get_host k hrm.namespace name)
  if not (is_available hrh.status.state)
      then throw (not_available name hrh.status.state)
      else if hrh.spec.maintenance_mode
      then throw (maintenance_error name)
      else do
        patch_host k (text "init HRH patch helper for claim")
            (concat (text "claim host " ∷ name ∷ text " (patch HRH)" ∷ [])) (claimed_host hrm hrh)
        set_host_ref name
        pure (claimed_host hrm hrh)

-- A claim that an earlier run of the controller left is taken up again.
unfoldable pub recover_claim : Kube → RobotMachine → Host → Exec World Host
unfolding set_host_ref
recover_claim k hrm hrh = do set_host_ref hrh.name; ensure_host_consumer_ref k hrh hrm

unfoldable pub resolve_by_name : Kube → RobotMachine → Text → Exec World Host
resolve_by_name k hrm name = do
  hrh ← wrap (get_error (text "get host ") name) (get_host k hrm.namespace name)
  if host_is_claimed_by hrh hrm
      then recover_claim k hrm hrh
      else if hrh.spec.maintenance_mode
      then throw (maintenance_error hrh.name)
      else claim_candidate k hrm name

-- "First pass: check for claim recovery"
unfoldable pub first_claimed : RobotMachine → List Host → Option Host
first_claimed hrm [] = none
first_claimed hrm (h ∷ l) = if host_is_claimed_by h hrm then some h else first_claimed hrm l

-- "Second pass: find an Available host to claim."
unfoldable pub first_available : List Host → Text
first_available [] = []
first_available (h ∷ l) =
    if is_available h.status.state && not h.spec.maintenance_mode then h.name else first_available l

unfoldable pub resolve_by_selector : Kube → RobotMachine → Text → Exec World Host
resolve_by_selector k hrm selector = do
  p ←
      lift
        (map_err (λ e. concat (text "invalid hostSelector: " ∷ e ∷ [])) (k.label_selector selector))
  l ← wrap (λ e. concat (text "list hosts by selector: " ∷ e ∷ [])) (list_hosts k hrm.namespace p)
  elim (first_claimed hrm l) [
    | some h ↦ recover_claim k hrm h
    | none ↦
        if is_empty (first_available l)
        then throw (text "no non-maintenance Available HetznerRobotHost found matching selector")
        else claim_candidate k hrm (first_available l)
  ]

unfoldable pub resolve_claimed : Kube → RobotMachine → Exec World Host
resolve_claimed k hrm = do
  hrh ←
      wrap (get_error (text "get claimed host ") hrm.status.host_ref)
        (get_host k hrm.namespace hrm.status.host_ref)
  ensure_host_consumer_ref k hrh hrm

unfoldable pub resolve_by_spec : Kube → RobotMachine → Option Text → Option Text → Exec World Host
resolve_by_spec k hrm (some name) selector = resolve_by_name k hrm name
resolve_by_spec k hrm none (some selector) = resolve_by_selector k hrm selector
resolve_by_spec k hrm none none =
    throw (text "HetznerRobotMachine must specify either spec.hostRef or spec.hostSelector")

unfoldable pub resolve_host : Kube → Exec World Host
resolve_host k w =
    let hrm = w.machine in
    (if is_empty hrm.status.host_ref
        then resolve_by_spec k hrm (named hrm.spec.host_ref) hrm.spec.host_selector
        else resolve_claimed k hrm)
      w
