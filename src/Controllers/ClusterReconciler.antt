-- ===== src/Controllers/ClusterReconciler.antt =====
-- controllers/yandexcluster_controller.go: `YandexClusterReconciler`
pub mod Refinement
pub mod Quiet
pub mod Endpoint
pub mod Finalizer
pub mod Admission
use cluster_api_provider_yan.Prelude.{◌==◌, ◌&&◌, Bool, true, Option, none, some, if◌then◌else◌}
use cluster_api_provider_yan.Prelude.Int.{pos, eqz}
use cluster_api_provider_yan.Exec.{
  Result, ok, err, panic, Exec, pure, raise, fault, modify, on_error, inspect, deferred, ◌>>=◌,
  ◌>>◌,
}
use cluster_api_provider_yan.Exec.Errors.{
  Error, wrapped, reconciling_load_balancer, deleting_load_balancer, endpoint_differs,
}
use cluster_api_provider_yan.Api.Conditions.{
  mark_true, mark_false, severity_error, severity_warning, severity_info,
  load_balancer_ready_condition,
}
use cluster_api_provider_yan.Api.Cluster.{LoadBalancerStatus, YandexCluster, cluster_finalizer}
use cluster_api_provider_yan.Cloud.{Client}
use cluster_api_provider_yan.Kube.{ObjectKey, Cluster, Kube, Libraries}
use cluster_api_provider_yan.Scope.Cluster.{ClusterState, new_cluster_scope, in_scope, set_ready}
use cluster_api_provider_yan.LoadBalancer.Alb.Creation.{mark}
use cluster_api_provider_yan.LoadBalancer.Service
use cluster_api_provider_yan.Controllers.Outcome.{Outcome, done, again, again_later}

module _ {W : Type 0} where
  -- What every failing step of `reconcile` does.
  abbrev fail_reconcile : {A : Type 0} → Error → Exec (ClusterState W) A
  fail_reconcile e = do
    modify (
        mark (
          mark_false load_balancer_ready_condition "load balancer reconcile error" severity_error
            (some e)))
    raise (wrapped reconciling_load_balancer e)

  abbrev set_endpoint : LoadBalancerStatus → ClusterState W → ClusterState W
  set_endpoint state s =
      let yc = s.yandex_cluster in
      let spec = yc.spec in
      record s {
        yandex_cluster = record yc {
          spec = record spec {
            control_plane_endpoint = record {
              host = state.listener_address;
              port = state.listener_port;
            };
          };
        };
      }

  abbrev set_load_balancer_status : LoadBalancerStatus → ClusterState W → ClusterState W
  set_load_balancer_status state s =
      let yc = s.yandex_cluster in
      let status = yc.status in
      record s {
        yandex_cluster = record yc {
          status = record status {
            load_balancer = record {
              name = "";
              listener_address = state.listener_address;
              listener_port = state.listener_port;
            };
          };
        };
      }

  become_ready : LoadBalancerStatus → Exec (ClusterState W) Outcome
  become_ready state = do
    modify (set_load_balancer_status state)
    modify (mark (mark_true load_balancer_ready_condition))
    modify set_ready
    pure done

  -- The last `switch` of `reconcile`, on the endpoint that the cluster has.
  unfoldable pub settle_endpoint : LoadBalancerStatus → Exec (ClusterState W) Outcome
  unfolding become_ready
  settle_endpoint state s =
      let endpoint = s.yandex_cluster.spec.control_plane_endpoint in
      if endpoint.host == "" && eqz endpoint.port (pos 0)
      then (modify (set_endpoint state) >> become_ready state) s
      else if endpoint.host == state.listener_address && eqz endpoint.port state.listener_port
      then become_ready state s
      else raise endpoint_differs s

module _ {W : Type 0} (libs : Libraries) (client : Client W) where
  when_active : Cluster → Bool → Exec (ClusterState W) Outcome
  when_active cluster active =
      if active
      then (do
        state ← on_error (in_scope cluster (Service.describe libs client)) fail_reconcile
        settle_endpoint state)
      else pure again_later

  reconcile_balancer : Cluster → Exec (ClusterState W) Outcome
  unfolding when_active
  reconcile_balancer cluster = do
    on_error (Service.reconcile libs client cluster) fail_reconcile
    active ← on_error (in_scope cluster (Service.is_active libs client)) fail_reconcile
    when_active cluster active

  abbrev add_finalizer : ClusterState W → ClusterState W
  add_finalizer s =
      let yc = s.yandex_cluster in
      record s {
        yandex_cluster = record yc {
          finalizers = libs.add_finalizer yc.finalizers cluster_finalizer;
        };
      }

  abbrev remove_finalizer : ClusterState W → ClusterState W
  remove_finalizer s =
      let yc = s.yandex_cluster in
      record s {
        yandex_cluster = record yc {
          finalizers = libs.remove_finalizer yc.finalizers cluster_finalizer;
        };
      }

  abbrev pub has_finalizer : ClusterState W → Bool
  has_finalizer s = libs.contains_finalizer s.yandex_cluster.finalizers cluster_finalizer

  unfoldable pub reconcile : Cluster → Exec (ClusterState W) Outcome
  unfolding reconcile_balancer
  reconcile cluster s =
      if has_finalizer s
      then reconcile_balancer cluster s
      else (modify add_finalizer >> pure again) s

  after_delete : Bool → Exec (ClusterState W) Outcome
  after_delete deleted = if deleted then modify remove_finalizer >> pure done else (do
    modify (mark (mark_false load_balancer_ready_condition libs.deleting_reason severity_info none))
    pure again_later)

  delete_balancer : Cluster → Exec (ClusterState W) Outcome
  unfolding after_delete
  delete_balancer cluster = do
    deleted ← on_error (in_scope cluster (Service.delete libs client)) (λ e. do
      modify (
          mark (
            mark_false load_balancer_ready_condition libs.deletion_failed_reason severity_warning
              none))
      raise (wrapped deleting_load_balancer e))
    after_delete deleted

  unfoldable pub reconcile_delete : Cluster → Exec (ClusterState W) Outcome
  unfolding delete_balancer
  reconcile_delete cluster s = if has_finalizer s then delete_balancer cluster s else pure done s

module _ {W : Type 0} (libs : Libraries) (kube : Kube W) (client : Client W) where
  -- `Close` of the scope: the object as it was read, and as it is.
  abbrev pub close : YandexCluster → Exec (ClusterState W) (Unit {0})
  close original s =
      let (r, w) = kube.patch_cluster original s.yandex_cluster s.world in
      (r, record s { world = w })

  -- The body of `Reconcile` once the scope is made, with its deferred `Close`.
  unfoldable pub run_scope : Cluster → YandexCluster → Exec W Outcome
  run_scope cluster yc w =
      let body = λ (s : ClusterState W).
        if yc.deleted
        then reconcile_delete libs client cluster s
        else reconcile libs client cluster s in
      let (r, s) = deferred (close yc) body (record { world = w; yandex_cluster = yc }) in
      (r, s.world)

  with_owner : YandexCluster → Option Cluster → Exec W Outcome
  with_owner yc none = pure done
  with_owner yc (some cluster) = if libs.is_cluster_paused cluster yc then pure done else (do
    scope ← new_cluster_scope kube (record {
      client = true;
      cluster = some cluster;
      yandex_cluster = some yc;
      yandex_client = true;
    })
    run_scope scope.cluster scope.yandex_cluster)

  with_cluster : Result YandexCluster → Exec W Outcome
  unfolding with_owner
  with_cluster (ok yc) = do owner ← kube.get_owner_cluster yc; with_owner yc owner
  with_cluster (err e) = if libs.is_api_not_found e then pure done else raise e
  with_cluster panic = fault

  -- `Reconcile`; the deadline of its context shows as errors of the calls.
  unfoldable pub reconcile_request : ObjectKey → Exec W Outcome
  unfolding with_cluster
  reconcile_request key = inspect (kube.get_yandex_cluster key) with_cluster
