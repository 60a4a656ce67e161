-- ===== src/Cloud/Quiet/Balancers.antt =====
-- A client of which the operations on a load balancer and its groups make the one call that they
-- are, and the lookups none.
use cluster_api_provider_yan.Prelude.{String}
use cluster_api_provider_yan.Cloud.{Client}
use cluster_api_provider_yan.Cloud.Requests.{
  CreateBackendGroupRequest, CreateLoadBalancerRequest, CreateTargetGroupRequest,
}
use cluster_api_provider_yan.Cloud.Recording.{
  Call, Recorded, recording, create_target_group, delete_target_group, create_backend_group,
  delete_backend_group, create_balancer, delete_balancer,
}
use cluster_api_provider_yan.Cloud.Quiet.{MakesOnly, here, then_call}

pub record MakesOwnBalancers {W : Type 0} (P : Call → Type 0) (client : Client (Recorded W))
    : Type 0 where
  pub alb_target_group_get_by_name :
      (folder name : String) → MakesOnly P (client.alb_target_group_get_by_name folder name)
  pub alb_backend_group_get_by_name :
      (folder name : String) → MakesOnly P (client.alb_backend_group_get_by_name folder name)
  pub alb_get_by_name : (folder name : String) → MakesOnly P (client.alb_get_by_name folder name)
  pub alb_target_group_create :
      (req : CreateTargetGroupRequest)
      → P (create_target_group req)
      → MakesOnly P (client.alb_target_group_create req)
  pub alb_target_group_delete :
      (id : String) → P (delete_target_group id) → MakesOnly P (client.alb_target_group_delete id)
  pub alb_backend_group_create :
      (req : CreateBackendGroupRequest)
      → P (create_backend_group req)
      → MakesOnly P (client.alb_backend_group_create req)
  pub alb_backend_group_delete :
      (id : String) → P (delete_backend_group id) → MakesOnly P (client.alb_backend_group_delete id)
  pub alb_create :
      (req : CreateLoadBalancerRequest)
      → P (create_balancer req)
      → MakesOnly P (client.alb_create req)
  pub alb_delete : (id : String) → P (delete_balancer id) → MakesOnly P (client.alb_delete id)

pub recording-MakesOwnBalancers :
    {W : Type 0} (P : Call → Type 0) (client : Client W) → MakesOwnBalancers P (recording client)
recording-MakesOwnBalancers P client = record {
  alb_target_group_get_by_name = λ folder name. record { only = λ s i. here; keeps = λ s i. i };
  alb_backend_group_get_by_name = λ folder name. record { only = λ s i. here; keeps = λ s i. i };
  alb_get_by_name = λ folder name. record { only = λ s i. here; keeps = λ s i. i };
  alb_target_group_create = λ req p. record { only = λ s i. then_call _ p here; keeps = λ s i. i };
  alb_target_group_delete = λ id p. record { only = λ s i. then_call _ p here; keeps = λ s i. i };
  alb_backend_group_create = λ req p. record { only = λ s i. then_call _ p here; keeps = λ s i. i };
  alb_backend_group_delete = λ id p. record { only = λ s i. then_call _ p here; keeps = λ s i. i };
  alb_create = λ req p. record { only = λ s i. then_call _ p here; keeps = λ s i. i };
  alb_delete = λ id p. record { only = λ s i. then_call _ p here; keeps = λ s i. i };
}
