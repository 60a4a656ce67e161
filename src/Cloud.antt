-- ===== src/Cloud.antt =====
-- internal/pkg/client/interfaces.go and internal/pkg/cloud/interfaces.go: the cloud API that the
-- services call, over an unknown state of the world.
pub mod Messages
pub mod Requests
pub mod Recording
pub mod Refinement
pub mod Quiet
pub mod Interfaces
use cluster_api_provider_yan.Prelude.{String, Bool, Option}
use cluster_api_provider_yan.Exec.{Exec}
use cluster_api_provider_yan.Api.Cluster.{LoadBalancerStatus}
use cluster_api_provider_yan.Cloud.Messages.{Instance, LoadBalancer, TargetGroup, BackendGroup}
use cluster_api_provider_yan.Cloud.Requests.{
  CreateInstanceRequest, CreateTargetGroupRequest, CreateBackendGroupRequest,
  CreateLoadBalancerRequest, TargetsRequest,
}

-- `Compute` and `ApplicationLoadBalancer`. A missing object is `none`, as `nil` without an error.
pub record Client (W : Type 0) : Type 0 where
  pub compute_get : String → Exec W Instance
  pub compute_create : CreateInstanceRequest → Exec W String
  pub compute_delete : String → Exec W (Unit {0})
  pub alb_add_target : TargetsRequest → Exec W (Unit {0})
  pub alb_remove_target : TargetsRequest → Exec W (Unit {0})
  pub alb_target_group_create : CreateTargetGroupRequest → Exec W String
  pub alb_target_group_delete : String → Exec W (Unit {0})
  pub alb_target_group_get_by_name : String → String → Exec W (Option TargetGroup)
  pub alb_backend_group_create : CreateBackendGroupRequest → Exec W String
  pub alb_backend_group_delete : String → Exec W (Unit {0})
  pub alb_backend_group_get_by_name : String → String → Exec W (Option BackendGroup)
  pub alb_create : CreateLoadBalancerRequest → Exec W String
  pub alb_delete : String → Exec W (Unit {0})
  pub alb_get_by_name : String → String → Exec W (Option LoadBalancer)

-- `cloud.LoadBalancer`: what the compute service knows of a load balancer.
pub record Balancer (W : Type 0) : Type 0 where
  pub describe : Exec W LoadBalancerStatus
  pub is_active : Exec W Bool
  pub add_target : String → String → Exec W (Unit {0})
  pub remove_target : String → String → Exec W (Unit {0})
