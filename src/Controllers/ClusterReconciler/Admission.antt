-- ===== src/Controllers/ClusterReconciler/Admission.antt =====
-- What the cluster controller writes passes the validation of the webhook.
use cluster_api_provider_yan.Prelude.{
  ◌≡◌, refl, ap, Bool, true, false, some, arith, eq_iff, Bool-cases, inl, inr,
}
use cluster_api_provider_yan.Prelude.Int.{pos, eqz_iff}
use cluster_api_provider_yan.Api.Cluster.{
  ApiEndpoint, LoadBalancerSpec, LoadBalancerStatus, YandexClusterSpec,
}
use cluster_api_provider_yan.Cloud.{Client}
use cluster_api_provider_yan.Kube.{Cluster, Libraries}
use cluster_api_provider_yan.Scope.Cluster.{ClusterState}
use cluster_api_provider_yan.LoadBalancer.Service
use cluster_api_provider_yan.Controllers.ClusterReconciler.{
  become_ready, reconcile, reconcile_balancer, settle_endpoint, when_active,
}
use cluster_api_provider_yan.Controllers.ClusterReconciler.Endpoint.{
  endpoint_of, is_unset, reconcile_keeps_endpoint, service_keeps,
}
use cluster_api_provider_yan.Webhooks.Cluster.{Network, admitted, no_endpoint, validate_update}
use cluster_api_provider_yan.Webhooks.Cluster.Updates.{Reachable, validate_update_admitted_iff}

unset_iff : (endpoint : ApiEndpoint) → is_unset endpoint ≡ true → endpoint ≡ no_endpoint
unset_iff endpoint h = ground (arith, eq_iff endpoint.host "", eqz_iff endpoint.port (pos 0))

module _ {W : Type 0} (libs : Libraries) (client : Client W) (cluster : Cluster) where
  abbrev lb_of : ClusterState W → LoadBalancerSpec
  lb_of s = s.yandex_cluster.spec.load_balancer

  settle_keeps_lb :
      (state : LoadBalancerStatus) (s : ClusterState W)
      → lb_of (settle_endpoint state s).1 ≡ lb_of s
  unfolding settle_endpoint become_ready
  settle_keeps_lb state s = ground arith

  active_keeps_lb :
      (active : Bool) (s : ClusterState W)
      → lb_of (when_active libs client cluster active s).1 ≡ lb_of s
  unfolding when_active
  active_keeps_lb false s = refl
  active_keeps_lb true s = grind (arith, settle_keeps_lb)

  service_keeps_lb :
      (s : ClusterState W) → lb_of (Service.reconcile libs client cluster s).1 ≡ lb_of s
  service_keeps_lb s =
      ap (λ (spec : YandexClusterSpec). spec.load_balancer) (service_keeps libs client cluster s)

  reconcile_keeps_lb : (s : ClusterState W) → lb_of (reconcile libs client cluster s).1 ≡ lb_of s
  unfolding reconcile reconcile_balancer
  reconcile_keeps_lb s = grind (arith, active_keeps_lb, service_keeps_lb s)

  -- Where the endpoint that a `reconcile` of the cluster
  -- controller leaves is reachable, the webhook admits the update from the cluster as it was to the
  -- cluster as `reconcile` leaves it, whatever the cloud answers.
  pub reconcile_admitted :
      (net : Network) (s : ClusterState W)
      → Reachable net (endpoint_of (reconcile libs client cluster s).1)
      → validate_update net
          (some s.yandex_cluster)
          (reconcile libs client cluster s).1.yandex_cluster
        ≡ admitted
  reconcile_admitted net s reachable =
      let s' = (reconcile libs client cluster s).1 in
      (validate_update_admitted_iff net s.yandex_cluster s'.yandex_cluster).1 (
        reconcile_keeps_lb s,
        elim (Bool-cases (is_unset (endpoint_of s))) [
          | inl unset ↦ inr (unset_iff (endpoint_of s) unset, reachable)
          | inr was_set ↦ inl (
              ap (λ (spec : YandexClusterSpec). spec.control_plane_endpoint)
                (reconcile_keeps_endpoint libs client cluster s was_set))
        ],
      )
