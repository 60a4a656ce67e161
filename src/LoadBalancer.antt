-- ===== src/LoadBalancer.antt =====
-- internal/pkg/cloud/services/loadbalancers: the load balancer of a cluster's control plane.
pub mod Builders
pub mod Alb
pub mod Nlb
pub mod Service
