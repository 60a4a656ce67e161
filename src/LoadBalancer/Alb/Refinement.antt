-- ===== src/LoadBalancer/Alb/Refinement.antt =====
-- The load balancer service over two clients, of which one refines the other.
pub mod Creation
pub mod Deletion
use cluster_api_provider_yan.Prelude.Int.{ℤ}
use cluster_api_provider_yan.Prelude.{
  arith, String, ℕ, zero, suc, Bool, true, false, Option, none, some, ◌≡◌, ◌∙◌, ap, refl,
  if◌then◌else◌,
}
use cluster_api_provider_yan.Exec.{Result, ok, err, panic, Exec, modify, pure, lift, ◌>>=◌, ◌>>◌}
use cluster_api_provider_yan.Api.Conditions.{mark_true, condition_ready}
use cluster_api_provider_yan.Cloud.{Client}
use cluster_api_provider_yan.LoadBalancer.Builders.Balancer
use cluster_api_provider_yan.Cloud.Messages.{LoadBalancer, TargetGroup, BackendGroup}
use cluster_api_provider_yan.Cloud.Refinement.{
  Refines, RefinesClient, bind-Refines, pure-Refines, lift-Refines, raise-Refines, fault-Refines,
  if-Refines, found-Refines,
}
use cluster_api_provider_yan.Kube.{Libraries, Cluster}
use cluster_api_provider_yan.Scope.Cluster.{
  ClusterScope, ClusterState, in_scope, get_folder_id, get_lb_name,
}
use cluster_api_provider_yan.LoadBalancer.Alb.Reads.{
  is_address_registered_alb, is_active_alb, describe_alb, get_internal_address, get_internal_port,
  first,
}
use cluster_api_provider_yan.LoadBalancer.Alb.Creation.{
  reconcile_alb_target_group, reconcile_alb_backend_group, reconcile_existing, check_listener,
  create_missing, reconcile_missing, mark, balancer_builder, reconcile_alb, reconcile_alb_service,
}
use cluster_api_provider_yan.LoadBalancer.Alb.Targets.{add_target_alb, remove_target_alb}
use cluster_api_provider_yan.LoadBalancer.Alb.Deletion.{
  delete_alb_service, delete_application_load_balancer, delete_alb_backend_group,
  delete_alb_target_group, is_going,
}
use cluster_api_provider_yan.LoadBalancer.Alb.Deletion.Convergence.{repeated}

module _ {S W : Type 0} (view : S → W) (libs : Libraries) {detailed : Client S}
    {abstract : Client W} (R : RefinesClient view detailed abstract) (c : ClusterScope) where
  -- An object that is found is asked to be deleted, and then there is more to do.
  deleted-Refines :
      {m : Exec S (Unit {0})} {n : Exec W (Unit {0})}
      → Refines view m n
      → Refines view (m >> pure false) (n >> pure false)
  deleted-Refines h = bind-Refines view (λ _. pure-Refines view false) h

  delete_lb-Refines :
      Refines view
        (delete_application_load_balancer libs detailed c)
        (delete_application_load_balancer libs abstract c)
  unfolding delete_application_load_balancer
  delete_lb-Refines =
      bind-Refines view
        (found-Refines view _ _ (pure-Refines view true) (λ lb.
          if-Refines view (is_going lb.status) (pure-Refines view false)
            (deleted-Refines (R.alb_delete lb.id))))
        (R.alb_get_by_name (get_folder_id c) (get_lb_name libs c))

  delete_bg-Refines :
      Refines view
        (delete_alb_backend_group libs detailed c)
        (delete_alb_backend_group libs abstract c)
  unfolding delete_alb_backend_group
  delete_bg-Refines =
      bind-Refines view
        (found-Refines view _ _ (pure-Refines view true)
          (λ bg. deleted-Refines (R.alb_backend_group_delete bg.id)))
        (R.alb_backend_group_get_by_name (get_folder_id c) (get_lb_name libs c))

  delete_tg-Refines :
      Refines view
        (delete_alb_target_group libs detailed c)
        (delete_alb_target_group libs abstract c)
  unfolding delete_alb_target_group
  delete_tg-Refines =
      bind-Refines view
        (found-Refines view _ _ (pure-Refines view true)
          (λ tg. deleted-Refines (R.alb_target_group_delete tg.id)))
        (R.alb_target_group_get_by_name (get_folder_id c) (get_lb_name libs c))

  pub delete_alb_service-Refines :
      Refines view (delete_alb_service libs detailed c) (delete_alb_service libs abstract c)
  unfolding delete_alb_service
  delete_alb_service-Refines =
      bind-Refines view
        (λ gone.
          if-Refines view gone
            (bind-Refines view
              (λ gone. if-Refines view gone delete_tg-Refines (pure-Refines view false))
              delete_bg-Refines)
            (pure-Refines view false))
        delete_lb-Refines

  pub add_target_alb-Refines :
      (addr subnet : String)
      → Refines view
          (add_target_alb libs detailed c addr subnet)
          (add_target_alb libs abstract c addr subnet)
  unfolding add_target_alb
  add_target_alb-Refines addr subnet =
      bind-Refines view
        (found-Refines view _ _ (raise-Refines view _) (λ tg.
          if-Refines view (is_address_registered_alb addr subnet tg) (pure-Refines view tt)
            (R.alb_add_target _)))
        (R.alb_target_group_get_by_name (get_folder_id c) (get_lb_name libs c))

  pub remove_target_alb-Refines :
      (addr subnet : String)
      → Refines view
          (remove_target_alb libs detailed c addr subnet)
          (remove_target_alb libs abstract c addr subnet)
  unfolding remove_target_alb
  remove_target_alb-Refines addr subnet =
      bind-Refines view
        (found-Refines view _ _ (pure-Refines view tt) (λ tg.
          if-Refines view (is_address_registered_alb addr subnet tg) (R.alb_remove_target _)
            (pure-Refines view tt)))
        (R.alb_target_group_get_by_name (get_folder_id c) (get_lb_name libs c))

  address-Refines :
      (lb : LoadBalancer)
      → Refines view (get_internal_address {W = S} lb) (get_internal_address {W = W} lb)
  unfolding get_internal_address
  address-Refines lb =
      bind-Refines view
        (λ listener.
          bind-Refines view
            (λ endpoint.
              bind-Refines view (λ address. lift-Refines view _)
                (lift-Refines view (first endpoint.addresses)))
            (lift-Refines view (first listener.endpoints)))
        (lift-Refines view (first lb.listeners))

  port-Refines :
      (lb : LoadBalancer)
      → Refines view (get_internal_port {W = S} lb) (get_internal_port {W = W} lb)
  unfolding get_internal_port
  port-Refines lb =
      bind-Refines view
        (λ listener.
          bind-Refines view
            (λ endpoint.
              bind-Refines view (λ port. pure-Refines view _)
                (lift-Refines view (first endpoint.ports)))
            (lift-Refines view (first listener.endpoints)))
        (lift-Refines view (first lb.listeners))

  pub is_active_alb-Refines :
      Refines view (is_active_alb libs detailed c) (is_active_alb libs abstract c)
  unfolding is_active_alb
  is_active_alb-Refines =
      bind-Refines view (λ lb. pure-Refines view _)
        (R.alb_get_by_name (get_folder_id c) (get_lb_name libs c))

  pub describe_alb-Refines :
      Refines view (describe_alb libs detailed c) (describe_alb libs abstract c)
  unfolding describe_alb
  describe_alb-Refines =
      bind-Refines view
        (found-Refines view _ _ (fault-Refines view) (λ lb.
          bind-Refines view
            (λ address. bind-Refines view (λ port. pure-Refines view _) (port-Refines lb))
            (address-Refines lb)))
        (R.alb_get_by_name (get_folder_id c) (get_lb_name libs c))
