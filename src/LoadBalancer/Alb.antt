-- ===== src/LoadBalancer/Alb.antt =====
-- internal/pkg/cloud/services/loadbalancers/alb.go: the application load balancer, its backend
-- group and its target group.
pub mod Reads
pub mod Lookups
pub mod Deletion
pub mod Creation
pub mod Targets
pub mod Refinement
