-- ===== src/Api.antt =====
-- api/v1alpha1: the custom resources, and what of the Kubernetes objects the program reads.
pub mod Conditions
pub mod Cluster
pub mod Machine
pub mod Template
