-- ===== src/Controllers/ClusterReconciler/Refinement.antt =====
-- The cluster controller over two clients and two API servers, of which the one refine the others.
use cluster_api_provider_yan.Prelude.{
  if◌then◌else◌, Bool, true, Option, none, some, refl, ap, arith,
}
use cluster_api_provider_yan.Exec.{Result, ok, err, panic, Exec}
use cluster_api_provider_yan.Exec.Errors.{Error, wrapped, patch_helper}
use cluster_api_provider_yan.Api.Cluster.{LoadBalancerStatus, YandexCluster}
use cluster_api_provider_yan.Cloud.{Client}
use cluster_api_provider_yan.Cloud.Refinement.{
  Refines, RefinesClient, bind-Refines, pure-Refines, raise-Refines, fault-Refines, if-Refines,
  inspect-Refines, on_error-Refines, deferred-Refines,
}
use cluster_api_provider_yan.Kube.{Cluster, Kube, Libraries, ObjectKey}
use cluster_api_provider_yan.Kube.Refinement.{RefinesKube}
use cluster_api_provider_yan.Scope.Cluster.{ClusterState, ClusterScopeParams, new_cluster_scope}
use cluster_api_provider_yan.LoadBalancer.Alb.Refinement.Creation.{cluster_view, in_scope-Refines}
use cluster_api_provider_yan.LoadBalancer.Service.Refinement
use cluster_api_provider_yan.LoadBalancer.Service.Refinement.{describe-Refines, is_active-Refines}
use cluster_api_provider_yan.Controllers.Outcome.{done, again_later}
use cluster_api_provider_yan.Controllers.ClusterReconciler.{
  fail_reconcile, become_ready, settle_endpoint, when_active, reconcile_balancer, reconcile,
  reconcile_delete, delete_balancer, after_delete, run_scope, close, with_owner, with_cluster,
  reconcile_request,
}

module _ {S W : Type 0} (view : S → W) where
  abbrev Seen : {A : Type 0} → Exec (ClusterState S) A → Exec (ClusterState W) A → Type 0
  Seen = Refines (cluster_view view)

  fail-Refines : {A : Type 0} (e : Error) → Seen (fail_reconcile {A = A} e) (fail_reconcile e)
  fail-Refines e = record { same_result = λ s. refl; same_world = λ s. refl }

  settle-Refines :
      (state : LoadBalancerStatus) → Seen (settle_endpoint state) (settle_endpoint state)
  unfolding settle_endpoint become_ready
  settle-Refines state = record { same_result = λ s. ground arith; same_world = λ s. ground arith }

  module _ (libs : Libraries) {detailed : Client S} {abstract : Client W}
      (R : RefinesClient view detailed abstract) (cluster : Cluster) where
    active-Refines :
        (active : Bool)
        → Seen (when_active libs detailed cluster active) (when_active libs abstract cluster active)
    unfolding when_active
    active-Refines active =
        if-Refines _ active
          (bind-Refines _ settle-Refines (
            on_error-Refines _ fail-Refines
              (in_scope-Refines view cluster (λ c. describe-Refines view libs R c))))
          (pure-Refines _ again_later)

    balancer-Refines :
        Seen (reconcile_balancer libs detailed cluster) (reconcile_balancer libs abstract cluster)
    unfolding reconcile_balancer
    balancer-Refines =
        bind-Refines _
          (λ _. bind-Refines _ active-Refines (
            on_error-Refines _ fail-Refines
              (in_scope-Refines view cluster (λ c. is_active-Refines view libs R c))))
          (on_error-Refines _ fail-Refines (Refinement.reconcile-Refines view libs R cluster))

    reconcile-Refines : Seen (reconcile libs detailed cluster) (reconcile libs abstract cluster)
    unfolding reconcile
    reconcile-Refines = record {
      same_result = λ s. ground (arith, balancer-Refines.same_result s);
      same_world = λ s. ground (arith, balancer-Refines.same_world s);
    }

    deleted-Refines :
        (deleted : Bool)
        → Seen (after_delete libs detailed deleted) (after_delete libs abstract deleted)
    unfolding after_delete
    deleted-Refines deleted = record {
      same_result = λ s. ground arith;
      same_world = λ s. ground arith;
    }

    delete-Refines :
        Seen (delete_balancer libs detailed cluster) (delete_balancer libs abstract cluster)
    unfolding delete_balancer
    delete-Refines = bind-Refines _ deleted-Refines (
        on_error-Refines _ (λ e. record { same_result = λ s. refl; same_world = λ s. refl })
          (in_scope-Refines view cluster (λ c. Refinement.delete-Refines view libs R c)))

    reconcile_delete-Refines :
        Seen (reconcile_delete libs detailed cluster) (reconcile_delete libs abstract cluster)
    unfolding reconcile_delete
    reconcile_delete-Refines = record {
      same_result = λ s. ground (arith, delete-Refines.same_result s);
      same_world = λ s. ground (arith, delete-Refines.same_world s);
    }

module _ {S W : Type 0} (view : S → W) (libs : Libraries) {kube : Kube S} {same_kube : Kube W}
    (L : RefinesKube view kube same_kube) {detailed : Client S} {abstract : Client W}
    (R : RefinesClient view detailed abstract) where
  close-Refines :
      (yc : YandexCluster)
      → Refines (cluster_view view) (close libs kube detailed yc) (close libs same_kube abstract yc)
  close-Refines yc = record {
    same_result = λ s. (L.patch_cluster yc s.yandex_cluster).same_result s.world;
    same_world = λ s.
        ap (λ w. record { world = w; yandex_cluster = s.yandex_cluster })
          ((L.patch_cluster yc s.yandex_cluster).same_world s.world);
  }

  abbrev pub params : Cluster → YandexCluster → ClusterScopeParams
  params cluster yc = record {
    client = true;
    cluster = some cluster;
    yandex_cluster = some yc;
    yandex_client = true;
  }

  pub scope-Refines :
      (cluster : Cluster) (yc : YandexCluster)
      → Refines view
          (new_cluster_scope kube (params cluster yc))
          (new_cluster_scope same_kube (params cluster yc))
  unfolding new_cluster_scope
  scope-Refines cluster yc =
      bind-Refines view (λ _. pure-Refines view (record { cluster = cluster; yandex_cluster = yc }))
        (on_error-Refines view (λ e. raise-Refines view (wrapped patch_helper e))
          (L.new_cluster_helper yc))

  body-Refines :
      (cluster : Cluster) (yc : YandexCluster)
      → Refines
          (cluster_view view)
          (λ s.
            if yc.deleted
            then reconcile_delete libs detailed cluster s
            else reconcile libs detailed cluster s)
          (λ s.
            if yc.deleted
            then reconcile_delete libs abstract cluster s
            else reconcile libs abstract cluster s)
  body-Refines cluster yc =
      let delete = reconcile_delete-Refines view libs R cluster in
      let keep = reconcile-Refines view libs R cluster in
      record {
        same_result = λ s. ground (arith, delete.same_result s, keep.same_result s);
        same_world = λ s. ground (arith, delete.same_world s, keep.same_world s);
      }

  run-Refines :
      (cluster : Cluster) (yc : YandexCluster)
      → Refines view
          (run_scope libs kube detailed cluster yc)
          (run_scope libs same_kube abstract cluster yc)
  unfolding run_scope
  run-Refines cluster yc =
      let all = deferred-Refines (cluster_view view) (close-Refines yc) (body-Refines cluster yc) in
      record {
        same_result = λ w. all.same_result (record { world = w; yandex_cluster = yc });
        same_world = λ w.
            ap (λ (s : ClusterState W). s.world)
              (all.same_world (record { world = w; yandex_cluster = yc }));
      }

  owner-Refines :
      (yc : YandexCluster) (owner : Option Cluster)
      → Refines view
          (with_owner libs kube detailed yc owner)
          (with_owner libs same_kube abstract yc owner)
  unfolding with_owner
  owner-Refines yc none = pure-Refines view done
  owner-Refines yc (some cluster) =
      if-Refines view (libs.is_cluster_paused cluster yc) (pure-Refines view done)
        (bind-Refines view (λ c. run-Refines c.cluster c.yandex_cluster) (scope-Refines cluster yc))

  found-Refines :
      (r : Result YandexCluster)
      → Refines view (with_cluster libs kube detailed r) (with_cluster libs same_kube abstract r)
  unfolding with_cluster
  found-Refines (ok yc) = bind-Refines view (owner-Refines yc) (L.get_owner_cluster yc)
  found-Refines (err e) =
      if-Refines view (libs.is_api_not_found e) (pure-Refines view done) (raise-Refines view e)
  found-Refines panic = fault-Refines view

  -- Where each operation of a client refines that of another, and each call of an API server that of
  -- another, the whole `Reconcile` of the cluster controller over the ones refines that over the
  -- others: it gives the same result and does the same to the world that is seen.
  pub reconcile_request-Refines :
      (key : ObjectKey)
      → Refines view
          (reconcile_request libs kube detailed key)
          (reconcile_request libs same_kube abstract key)
  unfolding reconcile_request
  reconcile_request-Refines key = inspect-Refines view found-Refines (L.get_yandex_cluster key)
