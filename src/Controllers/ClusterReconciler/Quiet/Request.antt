-- ===== src/Controllers/ClusterReconciler/Quiet/Request.antt =====
-- `Reconcile` of the cluster controller, from the cluster that is read to the end.
use cluster_api_provider_yan.Prelude.{
  Bool, true, false, Option, none, some, ◌≡◌, refl, if◌then◌else◌,
}
use cluster_api_provider_yan.Exec.{ok}
use cluster_api_provider_yan.Exec.Errors.{wrapped, patch_helper}
use cluster_api_provider_yan.Api.Cluster.{YandexCluster}
use cluster_api_provider_yan.Cloud.{Client}
use cluster_api_provider_yan.Cloud.Recording.{Recorded, recording, recording_kube}
use cluster_api_provider_yan.Cloud.Quiet.{
  Only, MakesOnly, bind-Makes, bind_made-Makes, raise-Makes, pure-Makes, if-Makes, on_error-Makes,
  deferred-Makes,
}
use cluster_api_provider_yan.Cloud.Quiet.Balancers.{MakesOwnBalancers, recording-MakesOwnBalancers}
use cluster_api_provider_yan.Kube.{Cluster, Kube, Libraries, ObjectKey}
use cluster_api_provider_yan.Kube.Quiet.{MakesOwnPatches, recording_kube-MakesOwnPatches}
use cluster_api_provider_yan.Scope.Cluster.{ClusterScope, new_cluster_scope}
use cluster_api_provider_yan.Controllers.Outcome.{done}
use cluster_api_provider_yan.Controllers.ClusterReconciler.{
  close, reconcile, reconcile_delete, run_scope, with_owner, with_cluster, reconcile_request,
}
use cluster_api_provider_yan.Controllers.ClusterReconciler.Quiet.{Permitted, Keeping, KeepsSpec}
use cluster_api_provider_yan.Controllers.ClusterReconciler.Quiet.Operations.{
  reconcile-Keeping, reconcile_delete-Keeping,
}

module _ {W : Type 0} (libs : Libraries) {kube : Kube (Recorded W)} {client : Client (Recorded W)}
    (yc : YandexCluster)
    (patches : (deleted : Bool) → MakesOwnPatches (Permitted yc.spec deleted) kube)
    (own : (deleted : Bool) → MakesOwnBalancers (Permitted yc.spec deleted) client) where
  close-Keeping :
      (deleted : Bool) → Keeping yc.spec (Permitted yc.spec deleted) (close libs kube client yc)
  unfolding Permitted
  close-Keeping deleted = record {
    only = λ s k. ((patches deleted).patch_cluster yc s.yandex_cluster k).only s.world tt;
    keeps = λ s k. k;
  }

  body-Keeping :
      (cluster : Cluster) (deleted : Bool)
      → Keeping yc.spec (Permitted yc.spec deleted) (λ s.
        if deleted then reconcile_delete libs client cluster s else reconcile libs client cluster s)
  body-Keeping cluster true = reconcile_delete-Keeping yc.spec libs cluster (own true)
  body-Keeping cluster false = reconcile-Keeping yc.spec libs cluster (own false)

  run-MakesOnly :
      (cluster : Cluster)
      → MakesOnly (Permitted yc.spec yc.deleted) (run_scope libs kube client cluster yc)
  unfolding run_scope KeepsSpec
  run-MakesOnly cluster =
      let all = deferred-Makes (close-Keeping yc.deleted) (body-Keeping cluster yc.deleted) in
      record {
        only = λ w i. all.only (record { world = w; yandex_cluster = yc }) refl;
        keeps = λ w i. i;
      }

  owner-MakesOnly :
      (owner : Option Cluster)
      → MakesOnly (Permitted yc.spec yc.deleted) (with_owner libs kube client yc owner)
  unfolding with_owner new_cluster_scope
  owner-MakesOnly none = pure-Makes done
  owner-MakesOnly (some cluster) = if-Makes (libs.is_cluster_paused cluster yc) (pure-Makes done) (
      bind_made-Makes
        (λ (scope : ClusterScope). run_scope libs kube client scope.cluster scope.yandex_cluster)
        (on_error-Makes ((patches yc.deleted).new_cluster_helper yc)
          (λ e. raise-Makes (wrapped patch_helper e)))
        (run-MakesOnly cluster))

  found-MakesOnly : MakesOnly (Permitted yc.spec yc.deleted) (with_cluster libs kube client (ok yc))
  unfolding with_cluster
  found-MakesOnly = bind-Makes ((patches yc.deleted).get_owner_cluster yc) owner-MakesOnly

-- All that a whole `Reconcile` of a cluster asks for, whatever fails on the way, is what is permitted
-- of the cluster that it reads: a part of a load balancer is created only for a cluster that is not
-- being deleted and only in the cluster's folder, and deleted only for one that is; nothing is asked
-- of instances, of targets or of a machine; every patch is of a cluster with the specification of the
-- one that was read, but for the endpoint.
pub reconcile_cluster-Permitted :
    {W : Type 0} (libs : Libraries) (kube : Kube W) (client : Client W) (key : ObjectKey)
    (s : Recorded W) (yc : YandexCluster)
    → (kube.get_yandex_cluster key s.world).0 ≡ ok yc
    → Only
        (Permitted yc.spec yc.deleted)
        s.calls
        (reconcile_request libs (recording_kube kube) (recording client) key s).1.calls
unfolding reconcile_request
reconcile_cluster-Permitted libs kube client key s yc read = rw read (
    (found-MakesOnly libs yc (λ d. recording_kube-MakesOwnPatches _ kube)
        (λ d. recording-MakesOwnBalancers _ client)).only
      _ tt)
