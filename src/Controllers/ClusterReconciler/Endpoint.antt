-- ===== src/Controllers/ClusterReconciler/Endpoint.antt =====
-- When `reconcile` of the cluster controller sets the endpoint and the readiness of a cluster.
use cluster_api_provider_yan.Prelude.{
  String, ◌≡◌, refl, ◌==◌, ◌&&◌, Bool, true, false, arith, eq_iff, Bool-cases, inl, inr,
}
use cluster_api_provider_yan.Prelude.Int.{pos, eqz, eqz_iff}
use cluster_api_provider_yan.Exec.{Result, ok, err, panic}
use cluster_api_provider_yan.Api.Cluster.{ApiEndpoint, LoadBalancerStatus, YandexClusterSpec}
use cluster_api_provider_yan.Cloud.{Client}
use cluster_api_provider_yan.Kube.{Cluster, Libraries}
use cluster_api_provider_yan.Scope.Cluster.{ClusterScope, ClusterState}
use cluster_api_provider_yan.LoadBalancer.Alb.Creation.{reconcile_alb, reconcile_alb_service}
use cluster_api_provider_yan.LoadBalancer.Service
use cluster_api_provider_yan.Controllers.Outcome.{Outcome, done}
use cluster_api_provider_yan.Controllers.ClusterReconciler.{
  become_ready, has_finalizer, reconcile, reconcile_balancer, settle_endpoint, when_active,
}

-- The endpoint that the cluster's specification leaves open.
abbrev pub is_unset : ApiEndpoint → Bool
is_unset endpoint = endpoint.host == "" && eqz endpoint.port (pos 0)

abbrev pub endpoint_of : {W : Type 0} → ClusterState W → ApiEndpoint
endpoint_of s = s.yandex_cluster.spec.control_plane_endpoint

abbrev spec_of : {W : Type 0} → ClusterState W → YandexClusterSpec
spec_of s = s.yandex_cluster.spec

-- A cluster's endpoint is set and stays in its specification.
module _ {W : Type 0} (libs : Libraries) (client : Client W) (cluster : Cluster) where
  reconcile_alb_keeps :
      (id : String) (s : ClusterState W)
      → (reconcile_alb libs client cluster id s).1.yandex_cluster.spec ≡ s.yandex_cluster.spec
  unfolding reconcile_alb
  reconcile_alb_keeps id s = ground arith

  alb_keeps :
      (s : ClusterState W)
      → (reconcile_alb_service libs client cluster s).1.yandex_cluster.spec ≡ s.yandex_cluster.spec
  unfolding reconcile_alb_service
  alb_keeps s = grind (arith, reconcile_alb_keeps)

  pub service_keeps :
      (s : ClusterState W)
      → (Service.reconcile libs client cluster s).1.yandex_cluster.spec ≡ s.yandex_cluster.spec
  unfolding Service.reconcile
  service_keeps s = ground (arith, alb_keeps s)

  settle_keeps :
      (state : LoadBalancerStatus) (s : ClusterState W)
      → is_unset (endpoint_of s) ≡ false
      → (settle_endpoint state s).1.yandex_cluster.spec ≡ s.yandex_cluster.spec
  unfolding settle_endpoint become_ready
  settle_keeps state s h = ground arith

  active_keeps :
      (active : Bool) (s : ClusterState W)
      → is_unset (endpoint_of s) ≡ false
      → (when_active libs client cluster active s).1.yandex_cluster.spec ≡ s.yandex_cluster.spec
  unfolding when_active
  active_keeps false s h = refl
  active_keeps true s h = grind (arith, settle_keeps)

  -- `reconcile` never changes the specification of a cluster whose endpoint is set, its endpoint
  -- included, whatever the cloud answers.
  pub reconcile_keeps_endpoint :
      (s : ClusterState W)
      → is_unset (endpoint_of s) ≡ false
      → (reconcile libs client cluster s).1.yandex_cluster.spec ≡ s.yandex_cluster.spec
  unfolding reconcile reconcile_balancer
  reconcile_keeps_endpoint s h = grind (arith, active_keeps, service_keeps s)

  settle_done :
      (state : LoadBalancerStatus) (s s' : ClusterState W) (out : Outcome)
      → settle_endpoint state s ≡ (ok out, s')
      → ((endpoint_of s').host ≡ state.listener_address)
        × ((endpoint_of s').port ≡ state.listener_port)
        × (s'.yandex_cluster.status.load_balancer.listener_address ≡ state.listener_address)
        × (s'.yandex_cluster.status.ready ≡ true)
  unfolding settle_endpoint become_ready
  settle_done state s s' out h =
      let e = endpoint_of s in
      ground (arith, eq_iff e.host state.listener_address, eqz_iff e.port state.listener_port)

  abbrev pub scope_of : ClusterState W → ClusterScope
  scope_of s = record { cluster = cluster; yandex_cluster = s.yandex_cluster }

  -- The load balancer service, where its calls are made one after the other from a state.
  module _ (s : ClusterState W) where
    abbrev pub reconciled : Result (Unit {0}) × ClusterState W
    reconciled = Service.reconcile libs client cluster s

    abbrev pub activity : Result Bool × W
    activity = Service.is_active libs client (scope_of reconciled.1) reconciled.1.world

    abbrev pub description : Result LoadBalancerStatus × W
    description = Service.describe libs client (scope_of reconciled.1) activity.1

  -- What a `reconcile` that is done has established, of the state that it leaves.
  pub record Settled (s s' : ClusterState W) : Type 0 where
    pub state : LoadBalancerStatus
    pub reconciled_ok : (reconciled s).0 ≡ ok tt
    pub active : (activity s).0 ≡ ok true
    pub described : (description s).0 ≡ ok state
    pub host : (endpoint_of s').host ≡ state.listener_address
    pub port : (endpoint_of s').port ≡ state.listener_port
    pub noted : s'.yandex_cluster.status.load_balancer.listener_address ≡ state.listener_address
    pub ready : s'.yandex_cluster.status.ready ≡ true

  balancer_done :
      (s s' : ClusterState W) (r : Result (Unit {0})) (b : Result Bool)
      (d : Result LoadBalancerStatus)
      → (reconciled s).0 ≡ r
      → (activity s).0 ≡ b
      → (description s).0 ≡ d
      → reconcile_balancer libs client cluster s ≡ (ok done, s')
      → Settled s s'
  unfolding reconcile_balancer when_active
  balancer_done s s' (ok _) (ok true) (ok state) hr hb hd h =
      let (host, port, noted, ready) = settle_done state _ s' done (rw (hr, hb, hd) at h) in
      record {
        state = state;
        reconciled_ok = hr;
        active = hb;
        described = hd;
        host = host;
        port = port;
        noted = noted;
        ready = ready;
      }
  balancer_done s s' (ok _) (ok true) (err e) hr hb hd h = absurd (ground arith)
  balancer_done s s' (ok _) (ok true) panic hr hb hd h = absurd (ground arith)
  balancer_done s s' (ok _) (ok false) d hr hb hd h = absurd (ground arith)
  balancer_done s s' (ok _) (err e) d hr hb hd h = absurd (ground arith)
  balancer_done s s' (ok _) panic d hr hb hd h = absurd (ground arith)
  balancer_done s s' (err e) b d hr hb hd h = absurd (ground arith)
  balancer_done s s' panic b d hr hb hd h = absurd (ground arith)

  -- A `reconcile` of the cluster controller that asks for no repetition has reconciled the load
  -- balancer, found it active and read its state; the cluster is ready, and its endpoint and the
  -- address in its status are the ones that were read.
  pub reconcile-Settled :
      (s s' : ClusterState W) → reconcile libs client cluster s ≡ (ok done, s') → Settled s s'
  unfolding reconcile
  reconcile-Settled s s' h = elim (Bool-cases (has_finalizer libs client s)) [
    | inl has ↦ balancer_done s s' _ _ _ refl refl refl (rw has at h)
    | inr missing ↦ absurd (ground arith)
  ]
