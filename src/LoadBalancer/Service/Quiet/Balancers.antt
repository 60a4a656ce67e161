-- ===== src/LoadBalancer/Service/Quiet/Balancers.antt =====
-- Which calls the lookups and the deletion of a load balancer make, and the creation of its groups.
use cluster_api_provider_yan.Prelude.{String, ◌==◌, ◌≡◌, refl, true, false, not, ◌&&◌}
use cluster_api_provider_yan.Prelude.Int.{ℤ, pos, eqz}
use cluster_api_provider_yan.Cloud.{Client}
use cluster_api_provider_yan.Cloud.Messages.{LoadBalancer}
use cluster_api_provider_yan.Cloud.Recording.{
  Call, Recorded, create_target_group, delete_target_group, create_backend_group,
  delete_backend_group, delete_balancer,
}
use cluster_api_provider_yan.Cloud.Requests.{CreateBackendGroupRequest, CreateTargetGroupRequest}
use cluster_api_provider_yan.Cloud.Quiet.{
  MakesOnly, bind-Makes, raise-Makes, fault-Makes, pure-Makes, lift-Makes, if-Makes, found-Makes,
}
use cluster_api_provider_yan.Cloud.Quiet.Balancers.{MakesOwnBalancers}
use cluster_api_provider_yan.Kube.{Libraries}
use cluster_api_provider_yan.Scope.Cluster.{
  ClusterScope, get_folder_id, get_lb_name, get_lb_spec, get_lb_type,
}
use cluster_api_provider_yan.LoadBalancer.Alb.Reads.{
  is_active_alb, describe_alb, get_internal_address, get_internal_port, first,
}
use cluster_api_provider_yan.LoadBalancer.Alb.Creation.{
  reconcile_alb_target_group, reconcile_alb_backend_group, reconcile_existing, check_listener,
}
use cluster_api_provider_yan.LoadBalancer.Alb.Deletion.{
  delete_alb_service, delete_application_load_balancer, delete_alb_backend_group,
  delete_alb_target_group, is_going,
}
use cluster_api_provider_yan.LoadBalancer.Service.{delete, describe, is_active}
use cluster_api_provider_yan.LoadBalancer.Service.Quiet.{by_type-MakesOnly}

module _ {W : Type 0} {P : Call → Type 0} where
  address-MakesOnly : (lb : LoadBalancer) → MakesOnly {W = W} P (get_internal_address lb)
  unfolding get_internal_address
  address-MakesOnly lb = bind-Makes (lift-Makes (first lb.listeners)) (λ listener.
      bind-Makes (lift-Makes (first listener.endpoints))
        (λ endpoint. bind-Makes (lift-Makes (first endpoint.addresses)) (λ address. lift-Makes _)))

  port-MakesOnly : (lb : LoadBalancer) → MakesOnly {W = W} P (get_internal_port lb)
  unfolding get_internal_port
  port-MakesOnly lb = bind-Makes (lift-Makes (first lb.listeners)) (λ listener.
      bind-Makes (lift-Makes (first listener.endpoints))
        (λ endpoint. bind-Makes (lift-Makes (first endpoint.ports)) (λ port. pure-Makes _)))

  listener-MakesOnly :
      (c : ClusterScope) (address : String) (port : ℤ)
      → MakesOnly {W = W} P (check_listener c address port)
  unfolding check_listener
  listener-MakesOnly c address port =
      let wanted = (get_lb_spec c).listener in
      if-Makes (not (address == "") && not (wanted.address == address)) (raise-Makes _) (
        if-Makes (not (eqz port (pos 0)) && not (eqz wanted.port port)) (raise-Makes _)
          (pure-Makes tt))

  pub existing-MakesOnly :
      (c : ClusterScope) (lb : LoadBalancer) → MakesOnly {W = W} P (reconcile_existing c lb)
  unfolding reconcile_existing
  existing-MakesOnly c lb =
      if-Makes _
        (bind-Makes (address-MakesOnly lb)
          (λ address. bind-Makes (port-MakesOnly lb) (listener-MakesOnly c address)))
        (pure-Makes tt)

module _ {W : Type 0} {P : Call → Type 0} (libs : Libraries) {client : Client (Recorded W)}
    (own : MakesOwnBalancers P client) (c : ClusterScope) where
  pub is_active-MakesOnly : MakesOnly P (is_active libs client c)
  unfolding is_active is_active_alb
  is_active-MakesOnly =
      by_type-MakesOnly (get_lb_type c)
        (bind-Makes (own.alb_get_by_name (get_folder_id c) (get_lb_name libs c))
          (λ lb. pure-Makes _))
        (raise-Makes _)

  pub describe-MakesOnly : MakesOnly P (describe libs client c)
  unfolding describe describe_alb
  describe-MakesOnly =
      by_type-MakesOnly (get_lb_type c)
        (bind-Makes (own.alb_get_by_name (get_folder_id c) (get_lb_name libs c)) (
          found-Makes _ fault-Makes (λ lb.
            bind-Makes (address-MakesOnly lb)
              (λ address. bind-Makes (port-MakesOnly lb) (λ port. pure-Makes _)))))
        (raise-Makes _)

  module _
      (allowed : (req : CreateTargetGroupRequest)
        → req.folder_id ≡ get_folder_id c
        → P (create_target_group req)) where
    pub tg_id-MakesOnly : MakesOnly P (reconcile_alb_target_group libs client c)
    unfolding reconcile_alb_target_group
    tg_id-MakesOnly =
        bind-Makes (own.alb_target_group_get_by_name (get_folder_id c) (get_lb_name libs c))
          (found-Makes _ (own.alb_target_group_create _ (allowed _ refl)) (λ tg. pure-Makes tg.id))

  module _
      (allowed : (req : CreateBackendGroupRequest)
        → req.folder_id ≡ get_folder_id c
        → P (create_backend_group req)) where
    pub bg_id-MakesOnly :
        (target_group_id : String)
        → MakesOnly P (reconcile_alb_backend_group libs client c target_group_id)
    unfolding reconcile_alb_backend_group
    bg_id-MakesOnly target_group_id =
        bind-Makes (own.alb_backend_group_get_by_name (get_folder_id c) (get_lb_name libs c))
          (found-Makes _ (own.alb_backend_group_create _ (allowed _ refl)) (λ bg. pure-Makes bg.id))

  module _ (lb_allowed : (id : String) → P (delete_balancer id))
      (bg_allowed : (id : String) → P (delete_backend_group id))
      (tg_allowed : (id : String) → P (delete_target_group id)) where
    lb-MakesOnly : MakesOnly P (delete_application_load_balancer libs client c)
    unfolding delete_application_load_balancer
    lb-MakesOnly = bind-Makes (own.alb_get_by_name (get_folder_id c) (get_lb_name libs c)) (
        found-Makes _ (pure-Makes true) (λ lb.
          if-Makes (is_going lb.status) (pure-Makes false)
            (bind-Makes (own.alb_delete lb.id (lb_allowed lb.id)) (λ _. pure-Makes false))))

    bg-MakesOnly : MakesOnly P (delete_alb_backend_group libs client c)
    unfolding delete_alb_backend_group
    bg-MakesOnly =
        bind-Makes (own.alb_backend_group_get_by_name (get_folder_id c) (get_lb_name libs c)) (
          found-Makes _ (pure-Makes true) (λ bg.
            bind-Makes (own.alb_backend_group_delete bg.id (bg_allowed bg.id))
              (λ _. pure-Makes false)))

    tg-MakesOnly : MakesOnly P (delete_alb_target_group libs client c)
    unfolding delete_alb_target_group
    tg-MakesOnly =
        bind-Makes (own.alb_target_group_get_by_name (get_folder_id c) (get_lb_name libs c)) (
          found-Makes _ (pure-Makes true) (λ tg.
            bind-Makes (own.alb_target_group_delete tg.id (tg_allowed tg.id))
              (λ _. pure-Makes false)))

    pub delete-MakesOnly : MakesOnly P (delete libs client c)
    unfolding delete delete_alb_service
    delete-MakesOnly =
        by_type-MakesOnly (get_lb_type c)
          (bind-Makes lb-MakesOnly (λ gone.
            if-Makes gone
              (bind-Makes bg-MakesOnly (λ gone. if-Makes gone tg-MakesOnly (pure-Makes false)))
              (pure-Makes false)))
          (raise-Makes _)
