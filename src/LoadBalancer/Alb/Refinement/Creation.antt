-- ===== src/LoadBalancer/Alb/Refinement/Creation.antt =====
-- The reconciliation of the load balancer over two clients, of which one refines the other.
use cluster_api_provider_yan.Prelude.Int.{ℤ}
use cluster_api_provider_yan.Prelude.{arith, String, ap, refl}
use cluster_api_provider_yan.Exec.{Exec, modify}
use cluster_api_provider_yan.Api.Conditions.{mark_true, condition_ready}
use cluster_api_provider_yan.Cloud.{Client}
use cluster_api_provider_yan.LoadBalancer.Builders.Balancer
use cluster_api_provider_yan.Cloud.Messages.{LoadBalancer}
use cluster_api_provider_yan.Cloud.Refinement.{
  Refines, RefinesClient, bind-Refines, pure-Refines, if-Refines, found-Refines,
}
use cluster_api_provider_yan.Kube.{Libraries, Cluster}
use cluster_api_provider_yan.Scope.Cluster.{
  ClusterScope, ClusterState, in_scope, get_folder_id, get_lb_name,
}
use cluster_api_provider_yan.LoadBalancer.Alb.Creation.{
  reconcile_alb_target_group, reconcile_alb_backend_group, reconcile_existing, check_listener,
  create_missing, reconcile_missing, mark, balancer_builder, reconcile_alb, reconcile_alb_service,
}
use cluster_api_provider_yan.LoadBalancer.Alb.Refinement.{address-Refines, port-Refines}

module _ {S W : Type 0} (view : S → W) (libs : Libraries) {detailed : Client S}
    {abstract : Client W} (R : RefinesClient view detailed abstract) (c : ClusterScope) where
  tg_id-Refines :
      Refines view
        (reconcile_alb_target_group libs detailed c)
        (reconcile_alb_target_group libs abstract c)
  unfolding reconcile_alb_target_group
  tg_id-Refines =
      bind-Refines view
        (found-Refines view _ _ (R.alb_target_group_create _) (λ tg. pure-Refines view tg.id))
        (R.alb_target_group_get_by_name (get_folder_id c) (get_lb_name libs c))

  bg_id-Refines :
      (target_group_id : String)
      → Refines view
          (reconcile_alb_backend_group libs detailed c target_group_id)
          (reconcile_alb_backend_group libs abstract c target_group_id)
  unfolding reconcile_alb_backend_group
  bg_id-Refines target_group_id =
      bind-Refines view
        (found-Refines view _ _ (R.alb_backend_group_create _) (λ bg. pure-Refines view bg.id))
        (R.alb_backend_group_get_by_name (get_folder_id c) (get_lb_name libs c))

  listener-Refines :
      (address : String) (port : ℤ)
      → Refines view (check_listener {W = S} c address port) (check_listener {W = W} c address port)
  unfolding check_listener
  listener-Refines address port = record {
    same_result = λ s. ground arith;
    same_world = λ s. ground arith;
  }

  existing-Refines :
      (lb : LoadBalancer)
      → Refines view (reconcile_existing {W = S} c lb) (reconcile_existing {W = W} c lb)
  unfolding reconcile_existing
  existing-Refines lb =
      if-Refines view _
        (bind-Refines view
          (λ address.
            bind-Refines view (λ port. listener-Refines address port)
              (port-Refines view libs R c lb))
          (address-Refines view libs R c lb))
        (pure-Refines view tt)

module _ {S W : Type 0} (view : S → W) where
  -- The world that is seen, with the cluster as it stands.
  abbrev pub cluster_view : ClusterState S → ClusterState W
  cluster_view s = record { world = view s.world; yandex_cluster = s.yandex_cluster }

  pub in_scope-Refines :
      {A : Type 0} (cluster : Cluster) {f : ClusterScope → Exec S A} {g : ClusterScope → Exec W A}
      → ((c : ClusterScope) → Refines view (f c) (g c))
      → Refines cluster_view (in_scope cluster f) (in_scope cluster g)
  in_scope-Refines cluster {f} {g} h = record {
    same_result = λ s. (h (scope s)).same_result s.world;
    same_world = λ s.
        ap (λ w. record { world = w; yandex_cluster = s.yandex_cluster })
          ((h (scope s)).same_world s.world);
  }
    where
      scope : ClusterState S → ClusterScope
      scope s = record { cluster = cluster; yandex_cluster = s.yandex_cluster }

  module _ (libs : Libraries) {detailed : Client S} {abstract : Client W}
      (R : RefinesClient view detailed abstract) (cluster : Cluster) where
    marked-Refines :
        Refines cluster_view
          (modify (mark (mark_true condition_ready)))
          (modify (mark (mark_true condition_ready)))
    marked-Refines = record { same_result = λ s. refl; same_world = λ s. refl }

    create_missing-Refines :
        (backend_group_id : String)
        → Refines cluster_view
            (create_missing libs detailed cluster backend_group_id)
            (create_missing libs abstract cluster backend_group_id)
    unfolding create_missing
    create_missing-Refines backend_group_id =
        bind-Refines cluster_view (λ _. marked-Refines)
          (in_scope-Refines cluster
            (λ c. R.alb_create (Balancer.build (balancer_builder libs c backend_group_id))))

    missing-Refines :
        (backend_group_id : String)
        → Refines cluster_view
            (reconcile_missing libs detailed cluster backend_group_id)
            (reconcile_missing libs abstract cluster backend_group_id)
    unfolding reconcile_missing
    missing-Refines backend_group_id =
        let create = create_missing-Refines backend_group_id in
        record {
          same_result = λ s. ground (arith, create.same_result s);
          same_world = λ s. ground (arith, create.same_world s);
        }

    alb-Refines :
        (backend_group_id : String)
        → Refines cluster_view
            (reconcile_alb libs detailed cluster backend_group_id)
            (reconcile_alb libs abstract cluster backend_group_id)
    unfolding reconcile_alb
    alb-Refines backend_group_id =
        bind-Refines cluster_view
          (found-Refines cluster_view _ _ (missing-Refines backend_group_id)
            (λ lb. in_scope-Refines cluster (λ c. existing-Refines view libs R c lb)))
          (in_scope-Refines cluster (λ c. R.alb_get_by_name (get_folder_id c) (get_lb_name libs c)))

    pub reconcile_alb_service-Refines :
        Refines cluster_view
          (reconcile_alb_service libs detailed cluster)
          (reconcile_alb_service libs abstract cluster)
    unfolding reconcile_alb_service
    reconcile_alb_service-Refines =
        bind-Refines cluster_view
          (λ tg.
            bind-Refines cluster_view (λ bg. alb-Refines bg)
              (in_scope-Refines cluster (λ c. bg_id-Refines view libs R c tg)))
          (in_scope-Refines cluster (λ c. tg_id-Refines view libs R c))
