-- ===== src/LoadBalancer/Service/Quiet.antt =====
-- Which calls the registration and the deregistration of a target make.
pub mod Balancers
use cluster_api_provider_yan.Prelude.{String, ◌==◌}
use cluster_api_provider_yan.Exec.{Exec}
use cluster_api_provider_yan.Api.Cluster.{load_balancer_type_alb, load_balancer_type_nlb}
use cluster_api_provider_yan.Cloud.{Client}
use cluster_api_provider_yan.Cloud.Recording.{Call, Recorded, add_target_call, remove_target_call}
use cluster_api_provider_yan.Cloud.Requests.{TargetsRequest}
use cluster_api_provider_yan.Cloud.Quiet.{
  MakesOnly, MakesOwnCalls, bind-Makes, raise-Makes, pure-Makes, if-Makes, found-Makes,
}
use cluster_api_provider_yan.Kube.{Libraries}
use cluster_api_provider_yan.Scope.Cluster.{ClusterScope, get_folder_id, get_lb_name, get_lb_type}
use cluster_api_provider_yan.LoadBalancer.Alb.Reads.{is_address_registered_alb}
use cluster_api_provider_yan.LoadBalancer.Alb.Targets.{add_target_alb, remove_target_alb}
use cluster_api_provider_yan.LoadBalancer.Service.{by_type, add_target, remove_target}

module _ {W : Type 0} {P : Call → Type 0} where
  pub by_type-MakesOnly :
      {A : Type 0} (lb_type : String) {m n : Exec (Recorded W) A}
      → MakesOnly P m
      → MakesOnly P n
      → MakesOnly P (by_type lb_type m n)
  by_type-MakesOnly lb_type h k =
      if-Makes (lb_type == load_balancer_type_alb) h
        (if-Makes (lb_type == load_balancer_type_nlb) k (raise-Makes _))

  module _ (libs : Libraries) {client : Client (Recorded W)} (own : MakesOwnCalls P client)
      (c : ClusterScope) (addr subnet : String) where
    module _ (allowed : (req : TargetsRequest) → P (add_target_call req)) where
      add_alb-MakesOnly : MakesOnly P (add_target_alb libs client c addr subnet)
      unfolding add_target_alb
      add_alb-MakesOnly =
          bind-Makes (own.alb_target_group_get_by_name (get_folder_id c) (get_lb_name libs c)) (
            found-Makes _ (raise-Makes _) (λ tg.
              if-Makes (is_address_registered_alb addr subnet tg) (pure-Makes tt)
                (own.alb_add_target _ (allowed _))))

      pub add_target-MakesOnly : MakesOnly P (add_target libs client c addr subnet)
      unfolding add_target
      add_target-MakesOnly = by_type-MakesOnly (get_lb_type c) add_alb-MakesOnly (raise-Makes _)

    module _ (allowed : (req : TargetsRequest) → P (remove_target_call req)) where
      remove_alb-MakesOnly : MakesOnly P (remove_target_alb libs client c addr subnet)
      unfolding remove_target_alb
      remove_alb-MakesOnly =
          bind-Makes (own.alb_target_group_get_by_name (get_folder_id c) (get_lb_name libs c)) (
            found-Makes _ (pure-Makes tt) (λ tg.
              if-Makes (is_address_registered_alb addr subnet tg)
                (own.alb_remove_target _ (allowed _)) (pure-Makes tt)))

      pub remove_target-MakesOnly : MakesOnly P (remove_target libs client c addr subnet)
      unfolding remove_target
      remove_target-MakesOnly =
          by_type-MakesOnly (get_lb_type c) remove_alb-MakesOnly (raise-Makes _)
