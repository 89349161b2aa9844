-- ===== src/Lib.antt =====
-- The Cluster API provider for Hetzner Robot servers, controllers and clients, as functions over an
-- explicit world.
--
-- The program: HetznerRobotMachines claim HetznerRobotHosts (physical servers), boot them into
-- Hetzner's rescue system over the Robot API, wipe their disks and install Talos or Flatcar over
-- SSH, configure them, and release them when they are deleted. The parts and their files:
--
--   api/v1alpha1/*_types.go                          Api and Api/*: the custom resources, as far as the
--                                                    controllers read or write them
--   controllers/hetznerrobotmachine_policy.go        Policy: authorizeDestructiveProvisioning (both),
--                                                    findActiveHostRelease, authorizeAutomatedHardwareReset
--   controllers/hetznerrobotmachine_host.go          Ownership: resolveHost (Claim), backfill and
--                                                    ensureProvisionedHostStatus (Adoption), releaseHost and
--                                                    resolveHostForDelete (Release), Hardware, references
--   pkg/sshrescue/client.go                          SshRescue: the report of the hardware and the disk choice
--                                                    (Hardware), WipeAllDisks (Wipe), shellQuote (Quote),
--                                                    the connection (Client), the images (Image)
--   pkg/robot/*.go                                   Robot; the credentials in Provision/Secrets
--   pkg/talos/client.go                              Talos; Bootstrap in Talos/Bootstrap
--   pkg/talos/bundle.go                              Talos/Bundle
--   controllers/hetznerrobotmachine_inject.go        Inject, over the documents of Config
--   controllers/hetznerrobotmachine_ignition.go      Ignition: injectFlatcarConfig, over the documents of
--                                                    Config; its parts in Ignition/Files, Units, Network,
--                                                    Users and Encode; writePreBootNetwork in PreBoot
--   controllers/hetznerrobotmachine_controller.go    Provision/Normal (reconcileNormal), Provision/Delete
--                                                    (reconcileDelete), Provision/Reconcile (Reconcile),
--                                                    Provision/Retry (computeBackoff, isPermanentError),
--                                                    Provision/Watch (mapHostReleaseToMachines)
--   controllers/hetznerrobotmachine_states.go        Provision/Rescue, Install, Boot, Config: one function
--   controllers/hetznerrobotmachine_flatcar.go       per state handler, in snake case; stateInstallFlatcar
--                                                    is in Provision/Install/Flatcar
--   controllers/hetznerrobotmachine_secrets.go       Provision/Secrets
--   controllers/hetznerrobotremediation_controller.go
--                                                    Remediation: one function per phase, over the
--                                                    remediation and the calls that left
--   controllers/hetznerrobothost_controller.go       HostController
--   controllers/hetznerrobotcluster_controller.go    ClusterController
--
-- A method that changes objects and may fail is an `Exec World`: a function of the world to a
-- result and the world after it, errors included. The world (World) has the host objects of the API
-- server, the machine and the cluster in memory, and the calls that left for a server, latest
-- first. What the outside answers is a parameter: the API server (Kube), the network and ssh
-- (Network), net/http with encoding/json (Http), gRPC (Grpc), the YAML codec (Codec), the JSON
-- codec with fmt's %v of a value that is no string (Json), the clock, all in `Env`; a question
-- asked twice in one reconcile has one answer, and nobody else writes to the store during one. A
-- patch writes the whole object; the machine's deferred patch leaves the stored machine as it was
-- where it fails. The three smaller reconcilers run on the one object that they patch, and the
-- answers of the API server to their requests are parameters. The crypto, x509 and pem packages
-- that pkg/talos/bundle.go calls are a parameter of it (Crypto), with one reading of the clock
-- where the code has two.
--
-- A panic (a failed type assertion, a write to the nil map) is an error whose message begins with
-- `panic: `; the crash of the process, or the recovery by its framework, is not modelled. A nil
-- slice is the empty list.
--
-- Numbers are natural numbers; server ids, prefix lengths and retry counts are not negative by the
-- validation of the resources or by how they are counted. Times are nanoseconds. strconv.Atoi keeps
-- its 64-bit range. `itoa` runs on fuel n + 1, more than the digits of n; the other loops are
-- structural. Strings are byte lists; ToLower and %q are those of ASCII text.
--
-- Not modelled: the manager in main.go and the SetupWithManager methods, generated code, log lines, the
-- patch of the remediation object, which is taken to succeed, and the constant texts at the end of
-- hetznerrobotmachine_ignition.go, which nothing uses.

mod Prelude
pub mod Text
pub mod Result
pub mod Api
pub mod Policy
pub mod Exec
pub mod World
pub mod Ownership
pub mod SshRescue
pub mod Config
pub mod Inject
pub mod Ignition
pub mod Robot
pub mod Talos
pub mod Provision
pub mod Remediation
pub mod HostController
pub mod ClusterController
mod Witness
