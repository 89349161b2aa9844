-- ===== src/SshRescue.antt =====
-- pkg/sshrescue/client.go: what the rescue shell reports about the hardware, which disk is
-- installed to, and how disks are wiped. Commands run on the server through a parameter.
pub mod Hardware
pub mod Wipe
pub mod Quote
pub mod Report
pub mod Disk
pub mod Client
pub mod Image
