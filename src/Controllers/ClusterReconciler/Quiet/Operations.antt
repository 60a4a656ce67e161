-- ===== src/Controllers/ClusterReconciler/Quiet/Operations.antt =====
-- `reconcile` and `reconcileDelete` of the cluster controller, with the calls that they make.
use cluster_api_provider_yan.Prelude.{
  String, ◌==◌, ◌&&◌, Bool, true, false, none, refl, ◌∙◌, if◌then◌else◌,
}
use cluster_api_provider_yan.Prelude.Int.{pos, eqz}
use cluster_api_provider_yan.Exec.{raise}
use cluster_api_provider_yan.Exec.Errors.{
  Error, wrapped, deleting_load_balancer, load_balancer_missing, endpoint_differs,
}
use cluster_api_provider_yan.Api.Cluster.{
  LoadBalancerStatus, YandexClusterSpec, load_balancer_type_alb, load_balancer_type_nlb,
}
use cluster_api_provider_yan.Api.Conditions.{
  mark_false, severity_info, severity_warning, mark_true, condition_ready,
  load_balancer_ready_condition,
}
use cluster_api_provider_yan.Cloud.{Client}
use cluster_api_provider_yan.Cloud.Recording.{Recorded}
use cluster_api_provider_yan.Cloud.Quiet.{
  bind-Makes, raise-Makes, pure-Makes, if-Makes, on_error-Makes, found-Makes, decided-Makes, here,
}
use cluster_api_provider_yan.Cloud.Quiet.Balancers.{MakesOwnBalancers}
use cluster_api_provider_yan.Kube.{Cluster, Libraries}
use cluster_api_provider_yan.Scope.Cluster.{ClusterState, get_folder_id, get_lb_name, set_ready}
use cluster_api_provider_yan.LoadBalancer.Builders.Balancer
use cluster_api_provider_yan.LoadBalancer.Alb.Creation.{
  balancer_builder, create_missing, is_unrecoverable, reconcile_missing, reconcile_alb,
  reconcile_alb_service,
}
use cluster_api_provider_yan.LoadBalancer.Nlb.{reconcile_nlb_service}
use cluster_api_provider_yan.LoadBalancer.Service
use cluster_api_provider_yan.LoadBalancer.Service.{by_type}
use cluster_api_provider_yan.LoadBalancer.Service.Quiet.Balancers.{
  is_active-MakesOnly, describe-MakesOnly, tg_id-MakesOnly, bg_id-MakesOnly, existing-MakesOnly,
  delete-MakesOnly,
}
use cluster_api_provider_yan.Controllers.Outcome.{done, again, again_later}
use cluster_api_provider_yan.Controllers.ClusterReconciler.{
  fail_reconcile, set_endpoint, set_load_balancer_status, become_ready, settle_endpoint,
  when_active, reconcile_balancer, reconcile, reconcile_delete, delete_balancer, after_delete,
  add_finalizer, remove_finalizer, has_finalizer,
}
use cluster_api_provider_yan.Controllers.ClusterReconciler.Quiet.{
  Permitted, Keeping, KeepsSpec, folder_kept, in_scope-Keeping, modify-Keeping, marked,
}

module _ {W : Type 0} (spec : YandexClusterSpec) (libs : Libraries) {client : Client (Recorded W)}
    (cluster : Cluster) where
  module _ (own : MakesOwnBalancers (Permitted spec false) client) where
    create-Keeping :
        (bg : String) → Keeping spec (Permitted spec false) (create_missing libs client cluster bg)
    unfolding create_missing Permitted Balancer.build
    create-Keeping bg =
        bind-Makes
          (in_scope-Keeping spec cluster (λ c k.
            own.alb_create (Balancer.build (balancer_builder libs c bg))
              (folder_kept spec c.yandex_cluster k, refl)))
          (λ _. marked spec (mark_true condition_ready))

    missing-Keeping :
        (bg : String)
        → Keeping spec (Permitted spec false) (reconcile_missing libs client cluster bg)
    unfolding reconcile_missing
    missing-Keeping bg = record { only = λ s k. (at s).only s k; keeps = λ s k. (at s).keeps s k }
      where
        at :
            (s : ClusterState (Recorded W))
            → Keeping spec (Permitted spec false) (λ s'.
              if is_unrecoverable libs
                (record { cluster = cluster; yandex_cluster = s'.yandex_cluster })
              then raise (load_balancer_missing s.yandex_cluster.name) s'
              else create_missing libs client cluster bg s')
        at s = decided-Makes (raise-Makes _) (create-Keeping bg) _

    alb-Keeping :
        (bg : String) → Keeping spec (Permitted spec false) (reconcile_alb libs client cluster bg)
    unfolding reconcile_alb
    alb-Keeping bg =
        bind-Makes
          (in_scope-Keeping spec cluster
            (λ c k. own.alb_get_by_name (get_folder_id c) (get_lb_name libs c)))
          (found-Makes _ (missing-Keeping bg)
            (λ lb. in_scope-Keeping spec cluster (λ c k. existing-MakesOnly c lb)))

    service-Keeping :
        Keeping spec (Permitted spec false) (reconcile_alb_service libs client cluster)
    unfolding reconcile_alb_service Permitted
    service-Keeping =
        bind-Makes
          (in_scope-Keeping spec cluster (λ c k.
            tg_id-MakesOnly libs own c (λ req e. (e ∙ folder_kept spec c.yandex_cluster k, refl))))
          (λ tg.
            bind-Makes
              (in_scope-Keeping spec cluster (λ c k.
                bg_id-MakesOnly libs own c
                  (λ req e. (e ∙ folder_kept spec c.yandex_cluster k, refl)) tg))
              alb-Keeping)

    by_type-Keeping :
        (lb_type : String)
        → Keeping spec
            (Permitted spec false)
            (by_type lb_type (reconcile_alb_service libs client cluster) reconcile_nlb_service)
    by_type-Keeping lb_type =
        if-Makes (lb_type == load_balancer_type_alb) service-Keeping
          (if-Makes (lb_type == load_balancer_type_nlb) (raise-Makes _) (raise-Makes _))

    balancer-Keeping : Keeping spec (Permitted spec false) (Service.reconcile libs client cluster)
    unfolding Service.reconcile
    balancer-Keeping = record {
      only = λ s k. (by_type-Keeping s.yandex_cluster.spec.load_balancer.type).only s k;
      keeps = λ s k. (by_type-Keeping s.yandex_cluster.spec.load_balancer.type).keeps s k;
    }

    fail-Keeping :
        {A : Type 0} (e : Error)
        → Keeping {W = W} spec (Permitted spec false) {A = A} (fail_reconcile e)
    unfolding KeepsSpec
    fail-Keeping e = record { only = λ s k. here; keeps = λ s k. k }

    ready-Keeping :
        (state : LoadBalancerStatus)
        → Keeping {W = W} spec (Permitted spec false) (become_ready state)
    unfolding become_ready
    ready-Keeping state =
        bind-Makes (modify-Keeping spec (set_load_balancer_status state) (λ s. refl) (λ s. refl))
          (λ _. bind-Makes (marked spec (mark_true load_balancer_ready_condition)) (λ _.
            bind-Makes (modify-Keeping spec set_ready (λ s. refl) (λ s. refl))
              (λ _. pure-Makes done)))

    settle-Keeping :
        (state : LoadBalancerStatus)
        → Keeping {W = W} spec (Permitted spec false) (settle_endpoint state)
    unfolding settle_endpoint
    settle-Keeping state =
        let endpoint_of =
          λ (s : ClusterState (Recorded W)). s.yandex_cluster.spec.control_plane_endpoint in
        decided-Makes
          (bind-Makes (modify-Keeping spec (set_endpoint state) (λ s. refl) (λ s. refl))
            (λ _. ready-Keeping state))
          (decided-Makes (ready-Keeping state) (raise-Makes endpoint_differs) (λ s.
            (endpoint_of s).host == state.listener_address
            && eqz (endpoint_of s).port state.listener_port))
          (λ s. (endpoint_of s).host == "" && eqz (endpoint_of s).port (pos 0))

    active-Keeping :
        (active : Bool)
        → Keeping spec (Permitted spec false) (when_active libs client cluster active)
    unfolding when_active
    active-Keeping active =
        if-Makes active
          (bind-Makes
            (on_error-Makes (in_scope-Keeping spec cluster (λ c k. describe-MakesOnly libs own c))
              fail-Keeping)
            settle-Keeping)
          (pure-Makes again_later)

    live-Keeping : Keeping spec (Permitted spec false) (reconcile_balancer libs client cluster)
    unfolding reconcile_balancer
    live-Keeping = bind-Makes (on_error-Makes balancer-Keeping fail-Keeping) (λ _.
        bind-Makes
          (on_error-Makes (in_scope-Keeping spec cluster (λ c k. is_active-MakesOnly libs own c))
            fail-Keeping)
          active-Keeping)

    pub reconcile-Keeping : Keeping spec (Permitted spec false) (reconcile libs client cluster)
    unfolding reconcile
    reconcile-Keeping =
        decided-Makes live-Keeping
          (bind-Makes (modify-Keeping spec (add_finalizer libs client) (λ s. refl) (λ s. refl))
            (λ _. pure-Makes again))
          (has_finalizer libs client)

  module _ (own : MakesOwnBalancers (Permitted spec true) client) where
    after_delete-Keeping :
        (gone : Bool) → Keeping {W = W} spec (Permitted spec true) (after_delete libs client gone)
    unfolding after_delete
    after_delete-Keeping gone =
        if-Makes gone
          (bind-Makes (modify-Keeping spec (remove_finalizer libs client) (λ s. refl) (λ s. refl))
            (λ _. pure-Makes done))
          (bind-Makes
            (marked spec
              (mark_false load_balancer_ready_condition libs.deleting_reason severity_info none))
            (λ _. pure-Makes again_later))

    gone-Keeping : Keeping spec (Permitted spec true) (delete_balancer libs client cluster)
    unfolding delete_balancer Permitted
    gone-Keeping =
        bind-Makes
          (on_error-Makes
            (in_scope-Keeping spec cluster
              (λ c k. delete-MakesOnly libs own c (λ id. refl) (λ id. refl) (λ id. refl)))
            (λ e.
              bind-Makes
                (marked spec (
                  mark_false load_balancer_ready_condition libs.deletion_failed_reason
                    severity_warning none))
                (λ _. raise-Makes (wrapped deleting_load_balancer e))))
          after_delete-Keeping

    pub reconcile_delete-Keeping :
        Keeping spec (Permitted spec true) (reconcile_delete libs client cluster)
    unfolding reconcile_delete
    reconcile_delete-Keeping =
        decided-Makes gone-Keeping (pure-Makes done) (has_finalizer libs client)
