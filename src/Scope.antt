-- ===== src/Scope.antt =====
-- internal/pkg/cloud/scope: what a service sees of a cluster and of a machine.
pub mod Cluster
pub mod Machine
pub mod Labels
pub mod InstanceRequest
