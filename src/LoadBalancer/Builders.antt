-- ===== src/LoadBalancer/Builders.antt =====
-- internal/pkg/cloud/services/loadbalancers/builders/alb_builders.go: a builder is a record, and a
-- `With…` method sets one field.
pub mod TargetGroup
pub mod BackendGroup
pub mod Balancer
