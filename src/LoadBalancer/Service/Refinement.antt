-- ===== src/LoadBalancer/Service/Refinement.antt =====
-- The load balancer service, whatever the type of the load balancer, over two clients of which one
-- refines the other.
use cluster_api_provider_yan.Prelude.{String, ◌==◌}
use cluster_api_provider_yan.Exec.{Exec}
use cluster_api_provider_yan.Api.Cluster.{load_balancer_type_alb, load_balancer_type_nlb}
use cluster_api_provider_yan.Cloud.{Client}
use cluster_api_provider_yan.Cloud.Refinement.{Refines, RefinesClient, raise-Refines, if-Refines}
use cluster_api_provider_yan.Kube.{Cluster, Libraries}
use cluster_api_provider_yan.Scope.Cluster.{ClusterScope, get_lb_type}
use cluster_api_provider_yan.LoadBalancer.Alb.Creation.{reconcile_alb_service}
use cluster_api_provider_yan.LoadBalancer.Nlb.{reconcile_nlb_service}
use cluster_api_provider_yan.LoadBalancer.Alb.Refinement.{
  delete_alb_service-Refines, add_target_alb-Refines, remove_target_alb-Refines,
  is_active_alb-Refines, describe_alb-Refines,
}
use cluster_api_provider_yan.LoadBalancer.Alb.Refinement.Creation.{
  cluster_view, reconcile_alb_service-Refines,
}
use cluster_api_provider_yan.LoadBalancer.Service.{
  by_type, reconcile, delete, describe, add_target, remove_target, is_active,
}

by_type-Refines :
    {S W A : Type 0} (view : S → W) (lb_type : String) {m m' : Exec S A} {n n' : Exec W A}
    → Refines view m n
    → Refines view m' n'
    → Refines view (by_type lb_type m m') (by_type lb_type n n')
by_type-Refines view lb_type h h' =
    if-Refines view (lb_type == load_balancer_type_alb) h
      (if-Refines view (lb_type == load_balancer_type_nlb) h' (raise-Refines view _))

module _ {S W : Type 0} (view : S → W) (libs : Libraries) {detailed : Client S}
    {abstract : Client W} (R : RefinesClient view detailed abstract) where
  reconcile_by_type :
      (cluster : Cluster) (lb_type : String)
      → Refines
          (cluster_view view)
          (by_type lb_type (reconcile_alb_service libs detailed cluster) reconcile_nlb_service)
          (by_type lb_type (reconcile_alb_service libs abstract cluster) reconcile_nlb_service)
  reconcile_by_type cluster lb_type =
      by_type-Refines (cluster_view view) lb_type
        (reconcile_alb_service-Refines view libs R cluster) (raise-Refines (cluster_view view) _)

  pub reconcile-Refines :
      (cluster : Cluster)
      → Refines
          (cluster_view view)
          (reconcile libs detailed cluster)
          (reconcile libs abstract cluster)
  unfolding reconcile
  reconcile-Refines cluster = record {
    same_result =
        λ s. (reconcile_by_type cluster s.yandex_cluster.spec.load_balancer.type).same_result s;
    same_world =
        λ s. (reconcile_by_type cluster s.yandex_cluster.spec.load_balancer.type).same_world s;
  }

  module _ (c : ClusterScope) where
    pub delete-Refines : Refines view (delete libs detailed c) (delete libs abstract c)
    unfolding delete
    delete-Refines =
        by_type-Refines view (get_lb_type c) (delete_alb_service-Refines view libs R c)
          (raise-Refines view _)

    pub describe-Refines : Refines view (describe libs detailed c) (describe libs abstract c)
    unfolding describe
    describe-Refines =
        by_type-Refines view (get_lb_type c) (describe_alb-Refines view libs R c)
          (raise-Refines view _)

    pub is_active-Refines : Refines view (is_active libs detailed c) (is_active libs abstract c)
    unfolding is_active
    is_active-Refines =
        by_type-Refines view (get_lb_type c) (is_active_alb-Refines view libs R c)
          (raise-Refines view _)

    pub add_target-Refines :
        (addr subnet : String)
        → Refines view
            (add_target libs detailed c addr subnet)
            (add_target libs abstract c addr subnet)
    unfolding add_target
    add_target-Refines addr subnet =
        by_type-Refines view (get_lb_type c) (add_target_alb-Refines view libs R c addr subnet)
          (raise-Refines view _)

    pub remove_target-Refines :
        (addr subnet : String)
        → Refines view
            (remove_target libs detailed c addr subnet)
            (remove_target libs abstract c addr subnet)
    unfolding remove_target
    remove_target-Refines addr subnet =
        by_type-Refines view (get_lb_type c) (remove_target_alb-Refines view libs R c addr subnet)
          (raise-Refines view _)
