-- ===== src/Api.antt =====
-- The custom resources of api/v1alpha1 and the parts of Cluster API objects that the controllers
-- read. Object metadata keeps the name, the namespace, the one finalizer of the kind (present or
-- not), whether a deletion timestamp is set, and the cluster-name label ("" when it is absent).
-- Points in time and durations count nanoseconds.
pub mod Host
pub mod Machine
pub mod Cluster
pub mod Remediation
pub mod Release
pub mod Capi
