-- ===== src/Controllers/ClusterReconciler/Finalizer.antt =====
-- When `reconcileDelete` of the cluster controller gives up the finalizer of a cluster.
use cluster_api_provider_yan.Prelude.{
  ◌≡◌, ◌≢◌, ◌==◌, refl, ap, Bool, true, false, none, arith, eq_iff, Bool-cases, inl, inr,
}
use cluster_api_provider_yan.Exec.{Result, ok, err, panic}
use cluster_api_provider_yan.Api.Cluster.{load_balancer_type_alb}
use cluster_api_provider_yan.Cloud.{Client}
use cluster_api_provider_yan.Kube.{Cluster, Libraries}
use cluster_api_provider_yan.Scope.Cluster.{ClusterScope, ClusterState}
use cluster_api_provider_yan.LoadBalancer.Alb.Deletion.Order
use cluster_api_provider_yan.LoadBalancer.Service
use cluster_api_provider_yan.Controllers.ClusterReconciler.{
  reconcile_delete, delete_balancer, after_delete, has_finalizer,
}
use cluster_api_provider_yan.Controllers.ClusterReconciler.Endpoint.{scope_of}

module _ {W : Type 0} (libs : Libraries) (client : Client W) (cluster : Cluster) where
  -- The lookups of `deleteALBService`, one after the other, find nothing.
  pub record Gone (c : ClusterScope) (w w' : W) : Type 0 where
    pub is_alb : c.yandex_cluster.spec.load_balancer.type ≡ load_balancer_type_alb
    pub no_balancer : (Order.lb_lookup libs client c w).0 ≡ ok none
    pub no_backend_group : (Order.bg_lookup libs client c w).0 ≡ ok none
    pub no_target_group : Order.tg_lookup libs client c w ≡ (ok none, w')

  deleted-Gone :
      (c : ClusterScope) (w w' : W) → Service.delete libs client c w ≡ (ok true, w') → Gone c w w'
  unfolding Service.delete
  deleted-Gone c w w' h =
      let type = c.yandex_cluster.spec.load_balancer.type in
      elim (Bool-cases (type == load_balancer_type_alb)) [
        | inl alb ↦
            let (lb, bg, tg) =
              (Order.delete_alb_service_deleted_iff libs client c w w').0 (rw alb at h) in
            record {
              is_alb = (eq_iff type load_balancer_type_alb).0 alb;
              no_balancer = lb;
              no_backend_group = bg;
              no_target_group = tg;
            }
        | inr other ↦ absurd (ground arith)
      ]

  balancer_kept :
      (s : ClusterState W) (r : Result Bool) (w' : W)
      → Service.delete libs client (scope_of libs client cluster s) s.world ≡ (r, w')
      → (delete_balancer libs client cluster s).1.yandex_cluster.finalizers
        ≢ s.yandex_cluster.finalizers
      → r ≡ ok true
  unfolding delete_balancer after_delete
  balancer_kept s (ok true) w' e changed = refl
  balancer_kept s (ok false) w' e changed = absurd (changed (rw e refl))
  balancer_kept s (err e') w' e changed = absurd (changed (rw e refl))
  balancer_kept s panic w' e changed = absurd (changed (rw e refl))

  -- `reconcileDelete` changes the finalizers of a cluster only where the cluster has the
  -- controller's, its load balancer is an ALB, and in this very call the load balancer, its backend
  -- group and its target group were looked up in turn and none of them was found.
  pub reconcile_delete-Gone :
      (s : ClusterState W)
      → (reconcile_delete libs client cluster s).1.yandex_cluster.finalizers
        ≢ s.yandex_cluster.finalizers
      → (has_finalizer libs client s ≡ true)
        × (w' : W) × Gone (scope_of libs client cluster s) s.world w'
  unfolding reconcile_delete
  reconcile_delete-Gone s changed = elim (Bool-cases (has_finalizer libs client s)) [
    | inl has ↦
        let (r, w') = Service.delete libs client (scope_of libs client cluster s) s.world in
        let e = balancer_kept s r w' refl (rw has at changed) in
        (has, w', deleted-Gone _ s.world w' (ap (λ result. (result, w')) e))
    | inr missing ↦ absurd (changed (rw missing refl))
  ]
