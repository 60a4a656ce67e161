-- ===== src/Compute.antt =====
-- internal/pkg/cloud/services/compute: the instance of a machine.
pub mod Service
