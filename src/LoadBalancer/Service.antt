-- ===== src/LoadBalancer/Service.antt =====
-- internal/pkg/cloud/services/loadbalancers/reconcile.go: each operation goes to the kind of load
-- balancer that the specification names.
pub mod Refinement
pub mod Quiet
use cluster_api_provider_yan.Prelude.{String, ◌==◌, Bool, if◌then◌else◌}
use cluster_api_provider_yan.Exec.{Exec, raise}
use cluster_api_provider_yan.Exec.Errors.{unknown_lb_type}
use cluster_api_provider_yan.Api.Cluster.{
  LoadBalancerStatus, load_balancer_type_alb, load_balancer_type_nlb,
}
use cluster_api_provider_yan.Cloud.{Client, Balancer}
use cluster_api_provider_yan.Kube.{Cluster, Libraries}
use cluster_api_provider_yan.Scope.Cluster.{ClusterScope, ClusterState, get_lb_type}
use cluster_api_provider_yan.LoadBalancer.Alb.Reads.{describe_alb, is_active_alb}
use cluster_api_provider_yan.LoadBalancer.Alb.Deletion.{delete_alb_service}
use cluster_api_provider_yan.LoadBalancer.Alb.Creation.{reconcile_alb_service}
use cluster_api_provider_yan.LoadBalancer.Alb.Targets.{add_target_alb, remove_target_alb}
use cluster_api_provider_yan.LoadBalancer.Nlb.{
  reconcile_nlb_service, delete_nlb_service, describe_nlb, add_target_nlb, remove_target_nlb,
  is_active_nlb,
}

-- The `switch` on the type of the load balancer.
abbrev pub by_type : {S A : Type 0} → String → Exec S A → Exec S A → Exec S A
by_type lb_type alb nlb =
    if lb_type == load_balancer_type_alb
    then alb
    else if lb_type == load_balancer_type_nlb
    then nlb
    else raise (unknown_lb_type lb_type)

module _ {W : Type 0} (libs : Libraries) (client : Client W) where
  unfoldable pub reconcile : Cluster → Exec (ClusterState W) (Unit {0})
  reconcile cluster s =
      by_type s.yandex_cluster.spec.load_balancer.type (reconcile_alb_service libs client cluster)
        reconcile_nlb_service s

  unfoldable pub delete : ClusterScope → Exec W Bool
  delete c = by_type (get_lb_type c) (delete_alb_service libs client c) delete_nlb_service

  unfoldable pub describe : ClusterScope → Exec W LoadBalancerStatus
  describe c = by_type (get_lb_type c) (describe_alb libs client c) describe_nlb

  unfoldable pub add_target : ClusterScope → String → String → Exec W (Unit {0})
  add_target c addr subnet_id =
      by_type (get_lb_type c) (add_target_alb libs client c addr subnet_id)
        (add_target_nlb addr subnet_id)

  unfoldable pub remove_target : ClusterScope → String → String → Exec W (Unit {0})
  remove_target c addr subnet_id =
      by_type (get_lb_type c) (remove_target_alb libs client c addr subnet_id)
        (remove_target_nlb addr subnet_id)

  unfoldable pub is_active : ClusterScope → Exec W Bool
  is_active c = by_type (get_lb_type c) (is_active_alb libs client c) is_active_nlb

  -- `loadbalancer.New(clusterScope)` as a `cloud.LoadBalancer`
  abbrev pub balancer : ClusterScope → Balancer W
  balancer c = record {
    describe = describe c;
    is_active = is_active c;
    add_target = add_target c;
    remove_target = remove_target c;
  }
