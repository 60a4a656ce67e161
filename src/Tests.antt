-- ===== src/Tests.antt =====
-- The theorems at concrete inputs, over a small cloud.
pub mod Fixtures
mod Balancers
mod Names
mod Instances
mod Repeated
mod Reconciliations
mod Deletions
mod Creations
mod Admission
mod Requests
mod Startup
mod SdkDeletions
mod Machines
mod Permitted
