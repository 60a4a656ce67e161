-- ===== src/Controllers.antt =====
-- controllers: the reconciliation loops of the two resources.
pub mod Outcome
pub mod Closing
pub mod MachineReconciler
pub mod ClusterReconciler
