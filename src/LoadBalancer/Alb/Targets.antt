-- ===== src/LoadBalancer/Alb/Targets.antt =====
-- alb.go: `addTargetALB` and `removeTargetALB`
pub mod Registration
use cluster_api_provider_yan.Prelude.{String, Option, none, some, if◌then◌else◌}
use cluster_api_provider_yan.Exec.{Exec, pure, raise, ◌>>=◌}
use cluster_api_provider_yan.Exec.Errors.{target_group_missing}
use cluster_api_provider_yan.Cloud.{Client}
use cluster_api_provider_yan.Cloud.Messages.{TargetGroup}
use cluster_api_provider_yan.Kube.{Libraries}
use cluster_api_provider_yan.Scope.Cluster.{
  ClusterScope, name, get_folder_id, get_lb_name, get_lb_spec,
}
use cluster_api_provider_yan.LoadBalancer.Builders.TargetGroup
use cluster_api_provider_yan.LoadBalancer.Builders.TargetGroup.{AlbTargetGroupBuilder}
use cluster_api_provider_yan.LoadBalancer.Alb.Reads.{is_address_registered_alb}

module _ (libs : Libraries) where
  abbrev pub target_builder : ClusterScope → String → String → AlbTargetGroupBuilder
  target_builder c ip_address subnet_id = TargetGroup.with_folder (get_folder_id c) (
      TargetGroup.with_subnet_id subnet_id (
        TargetGroup.with_ip ip_address (
          TargetGroup.with_lb_name (get_lb_name libs c)
            (TargetGroup.with_cluster (name c) (TargetGroup.new (get_lb_spec c))))))

module _ {W : Type 0} (libs : Libraries) (client : Client W) where
  add_found : ClusterScope → String → String → Option TargetGroup → Exec W (Unit {0})
  add_found c ip_address subnet_id none =
      raise
        (target_group_missing (TargetGroup.get_name (target_builder libs c ip_address subnet_id)))
  add_found c ip_address subnet_id (some tg) =
      if is_address_registered_alb ip_address subnet_id tg
      then pure tt
      else client.alb_add_target (
          TargetGroup.build_add_target_request
            (TargetGroup.with_target_group_id tg.id (target_builder libs c ip_address subnet_id))
            ip_address)

  unfoldable pub add_target_alb : ClusterScope → String → String → Exec W (Unit {0})
  unfolding add_found
  add_target_alb c ip_address subnet_id = do
    tg ←
        client.alb_target_group_get_by_name (get_folder_id c)
          (TargetGroup.get_name (target_builder libs c ip_address subnet_id))
    add_found c ip_address subnet_id tg

  -- A target group that is gone was deleted by the user, which is no error.
  remove_found : ClusterScope → String → String → Option TargetGroup → Exec W (Unit {0})
  remove_found c ip_address subnet_id none = pure tt
  remove_found c ip_address subnet_id (some tg) =
      if is_address_registered_alb ip_address subnet_id tg
      then client.alb_remove_target (
          TargetGroup.build_remove_target_request
            (TargetGroup.with_target_group_id tg.id (target_builder libs c ip_address subnet_id))
            ip_address)
      else pure tt

  unfoldable pub remove_target_alb : ClusterScope → String → String → Exec W (Unit {0})
  unfolding remove_found
  remove_target_alb c ip_address subnet_id = do
    tg ←
        client.alb_target_group_get_by_name (get_folder_id c)
          (TargetGroup.get_name (target_builder libs c ip_address subnet_id))
    remove_found c ip_address subnet_id tg
