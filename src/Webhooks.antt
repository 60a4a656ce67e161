-- ===== src/Webhooks.antt =====
-- api/v1alpha1: the validating webhooks.
pub mod Verdicts
pub mod DeepEqual
pub mod Cluster
pub mod Unstructured
pub mod Machine
pub mod Template
