-- ===== src/Cloud/Interfaces.antt =====
-- internal/pkg/client/interfaces.go: the whole interface of the cloud API. An operation of the API is an
-- `Op`; a request for the targets of a network load balancer is an `N`, and its target group a `G`.
use cluster_api_provider_yan.Prelude.{String, Option}
use cluster_api_provider_yan.Exec.{Exec, pure, ◌>>◌}
use cluster_api_provider_yan.Cloud.{Client}
use cluster_api_provider_yan.Cloud.Messages.{Instance, LoadBalancer, TargetGroup, BackendGroup}
use cluster_api_provider_yan.Cloud.Requests.{
  CreateInstanceRequest, CreateTargetGroupRequest, CreateBackendGroupRequest,
  CreateLoadBalancerRequest, TargetsRequest,
}

pub record Compute (W : Type 0) : Type 0 where
  pub compute_get : String → Exec W Instance
  pub compute_create : CreateInstanceRequest → Exec W String
  pub compute_delete : String → Exec W (Unit {0})

pub record ApplicationLoadBalancer (W Op : Type 0) : Type 0 where
  pub alb_add_target : TargetsRequest → Exec W Op
  pub alb_get_target_group : String → Exec W TargetGroup
  pub alb_remove_target : TargetsRequest → Exec W Op
  pub alb_target_group_create : CreateTargetGroupRequest → Exec W String
  pub alb_target_group_delete : String → Exec W (Unit {0})
  pub alb_target_group_get : String → Exec W TargetGroup
  pub alb_target_group_get_by_name : String → String → Exec W (Option TargetGroup)
  pub alb_backend_group_create : CreateBackendGroupRequest → Exec W String
  pub alb_backend_group_delete : String → Exec W (Unit {0})
  pub alb_backend_group_get : String → Exec W BackendGroup
  pub alb_backend_group_get_by_name : String → String → Exec W (Option BackendGroup)
  pub alb_create : CreateLoadBalancerRequest → Exec W String
  pub alb_delete : String → Exec W (Unit {0})
  pub alb_get : String → Exec W LoadBalancer
  pub alb_get_by_name : String → String → Exec W (Option LoadBalancer)

pub record NetworkLoadBalancer (W Op N G : Type 0) : Type 0 where
  pub nlb_add_target : N → Exec W Op
  pub nlb_get_target_group : String → Exec W G
  pub nlb_remove_target : N → Exec W Op

-- `Client`
pub record Api (W Op N G : Type 0) : Type 0 where
  pub compute : Compute W
  pub alb : ApplicationLoadBalancer W Op
  pub nlb : NetworkLoadBalancer W Op N G
  pub close : Exec W (Unit {0})

-- What the services call of it. The operation that the registration of a target returns is read by
-- none of its callers, and is dropped here.
abbrev pub services_client : {W Op : Type 0} → Compute W → ApplicationLoadBalancer W Op → Client W
services_client compute alb = record {
  compute_get = compute.compute_get;
  compute_create = compute.compute_create;
  compute_delete = compute.compute_delete;
  alb_add_target = λ req. alb.alb_add_target req >> pure tt;
  alb_remove_target = λ req. alb.alb_remove_target req >> pure tt;
  alb_target_group_create = alb.alb_target_group_create;
  alb_target_group_delete = alb.alb_target_group_delete;
  alb_target_group_get_by_name = alb.alb_target_group_get_by_name;
  alb_backend_group_create = alb.alb_backend_group_create;
  alb_backend_group_delete = alb.alb_backend_group_delete;
  alb_backend_group_get_by_name = alb.alb_backend_group_get_by_name;
  alb_create = alb.alb_create;
  alb_delete = alb.alb_delete;
  alb_get_by_name = alb.alb_get_by_name;
}
