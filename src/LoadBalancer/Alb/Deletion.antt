-- ===== src/LoadBalancer/Alb/Deletion.antt =====
-- alb.go: `deleteALBService` and the three deletions that it makes in turn. `true` is
-- `resourceDeleted`.
pub mod Order
pub mod Convergence
use cluster_api_provider_yan.Prelude.{String, Bool, true, false, Option, none, some, if◌then◌else◌}
use cluster_api_provider_yan.Exec.{Exec, pure, ◌>>=◌, ◌>>◌}
use cluster_api_provider_yan.Cloud.{Client}
use cluster_api_provider_yan.Cloud.Messages.{
  LoadBalancerState, deleting, stopping, LoadBalancer, TargetGroup, BackendGroup,
}
use cluster_api_provider_yan.Kube.{Libraries}
use cluster_api_provider_yan.Scope.Cluster.{ClusterScope, get_folder_id, get_lb_name, get_lb_spec}
use cluster_api_provider_yan.LoadBalancer.Builders.TargetGroup
use cluster_api_provider_yan.LoadBalancer.Builders.BackendGroup

abbrev pub is_going : LoadBalancerState → Bool
is_going deleting = true
is_going stopping = true
is_going _ = false

module _ {W : Type 0} (libs : Libraries) (client : Client W) where
  delete_found_lb : Option LoadBalancer → Exec W Bool
  delete_found_lb none = pure true
  delete_found_lb (some lb) =
      if is_going lb.status then pure false else client.alb_delete lb.id >> pure false

  unfoldable pub delete_application_load_balancer : ClusterScope → Exec W Bool
  unfolding delete_found_lb
  delete_application_load_balancer c = do
    lb ← client.alb_get_by_name (get_folder_id c) (get_lb_name libs c)
    delete_found_lb lb

  abbrev target_group_name : ClusterScope → String
  target_group_name c =
      TargetGroup.get_name
        (TargetGroup.with_lb_name (get_lb_name libs c) (TargetGroup.new (get_lb_spec c)))

  abbrev backend_group_name : ClusterScope → String
  backend_group_name c =
      BackendGroup.get_name
        (BackendGroup.with_lb_name (get_lb_name libs c) (BackendGroup.new (get_lb_spec c)))

  delete_found_tg : Option TargetGroup → Exec W Bool
  delete_found_tg none = pure true
  delete_found_tg (some tg) = client.alb_target_group_delete tg.id >> pure false

  unfoldable pub delete_alb_target_group : ClusterScope → Exec W Bool
  unfolding delete_found_tg
  delete_alb_target_group c = do
    tg ← client.alb_target_group_get_by_name (get_folder_id c) (target_group_name c)
    delete_found_tg tg

  delete_found_bg : Option BackendGroup → Exec W Bool
  delete_found_bg none = pure true
  delete_found_bg (some bg) = client.alb_backend_group_delete bg.id >> pure false

  unfoldable pub delete_alb_backend_group : ClusterScope → Exec W Bool
  unfolding delete_found_bg
  delete_alb_backend_group c = do
    bg ← client.alb_backend_group_get_by_name (get_folder_id c) (backend_group_name c)
    delete_found_bg bg

  -- Each stage is reached only where the one before it found nothing left.
  delete_groups : ClusterScope → Exec W Bool
  delete_groups c = do
    gone ← delete_alb_backend_group c
    if gone then delete_alb_target_group c else pure false

  unfoldable pub delete_alb_service : ClusterScope → Exec W Bool
  unfolding delete_groups
  delete_alb_service c = do
    gone ← delete_application_load_balancer c
    if gone then delete_groups c else pure false
