-- ===== src/Controllers/MachineReconciler/Refinement/Request.antt =====
-- `Reconcile` of the machine controller, from the request to the end, over two clients and two API
-- servers.
use cluster_api_provider_yan.Prelude.{Option, none, some}
use cluster_api_provider_yan.Exec.{Result, ok, err, panic, deref}
use cluster_api_provider_yan.Exec.Errors.{wrapped, patch_helper, fetching_machine}
use cluster_api_provider_yan.Api.Cluster.{YandexCluster}
use cluster_api_provider_yan.Api.Machine.{YandexMachine}
use cluster_api_provider_yan.Cloud.{Client}
use cluster_api_provider_yan.Cloud.Refinement.{
  Refines, RefinesClient, bind-Refines, pure-Refines, lift-Refines, raise-Refines, fault-Refines,
  if-Refines, inspect-Refines, on_error-Refines, bind_made-Refines,
}
use cluster_api_provider_yan.Kube.{Cluster, Machine, Kube, Libraries, ObjectKey}
use cluster_api_provider_yan.Kube.Refinement.{RefinesKube}
use cluster_api_provider_yan.Scope.Cluster.{ClusterScope}
use cluster_api_provider_yan.Scope.Labels.{CapiLabels}
use cluster_api_provider_yan.Scope.Machine.{new_machine_scope}
use cluster_api_provider_yan.LoadBalancer.Service.{balancer}
use cluster_api_provider_yan.LoadBalancer.Service.Refinement.{
  add_target-Refines, remove_target-Refines,
}
use cluster_api_provider_yan.Compute.Service.Refinement.{RefinesBalancer}
use cluster_api_provider_yan.Controllers.ClusterReconciler.Refinement.{scope-Refines}
use cluster_api_provider_yan.Controllers.Outcome.{done}
use cluster_api_provider_yan.Controllers.MachineReconciler.{
  run_scope, make_scopes, with_yandex_cluster, with_cluster, with_owner, with_machine,
  reconcile_request,
}
use cluster_api_provider_yan.Controllers.MachineReconciler.Refinement.{run-Refines}

module _ {S W : Type 0} (view : S → W) (libs : Libraries) (keys : CapiLabels) {kube : Kube S}
    {same_kube : Kube W} (L : RefinesKube view kube same_kube) {detailed : Client S}
    {abstract : Client W} (R : RefinesClient view detailed abstract) where
  balancer-Refines :
      (c : ClusterScope)
      → RefinesBalancer view (balancer libs detailed c) (balancer libs abstract c)
  balancer-Refines c = record {
    add_target = add_target-Refines view libs R c;
    remove_target = remove_target-Refines view libs R c;
  }

  scopes-Refines :
      (ym : YandexMachine) (machine : Machine) (cluster : Cluster) (yc : YandexCluster)
      → Refines view
          (make_scopes libs keys kube detailed ym machine cluster yc)
          (make_scopes libs keys same_kube abstract ym machine cluster yc)
  unfolding make_scopes new_machine_scope
  scopes-Refines ym machine cluster yc =
      bind-Refines view
        (λ c.
          bind_made-Refines view (λ scope. run_scope libs keys kube detailed scope ym)
            (λ scope. run_scope libs keys same_kube abstract scope ym)
            (run-Refines view libs keys L R c machine ym (balancer-Refines c) ym)
            (on_error-Refines view (λ e. raise-Refines view (wrapped patch_helper e))
              (L.new_machine_helper ym)))
        (scope-Refines view libs L R cluster yc)

  yandex_cluster-Refines :
      (ym : YandexMachine) (machine : Machine) (cluster : Cluster) (r : Result YandexCluster)
      → Refines view
          (with_yandex_cluster libs keys kube detailed ym machine cluster r)
          (with_yandex_cluster libs keys same_kube abstract ym machine cluster r)
  unfolding with_yandex_cluster
  yandex_cluster-Refines ym machine cluster (ok yc) = scopes-Refines ym machine cluster yc
  yandex_cluster-Refines ym machine cluster (err e) = pure-Refines view done
  yandex_cluster-Refines ym machine cluster panic = fault-Refines view

  cluster-Refines :
      (ym : YandexMachine) (machine : Machine) (r : Result Cluster)
      → Refines view
          (with_cluster libs keys kube detailed ym machine r)
          (with_cluster libs keys same_kube abstract ym machine r)
  unfolding with_cluster
  cluster-Refines ym machine (ok cluster) =
      if-Refines view (libs.is_machine_paused cluster ym) (pure-Refines view done) (
        bind-Refines view
          (λ ref.
            inspect-Refines view (yandex_cluster-Refines ym machine cluster)
              (L.get_yandex_cluster (record { namespace = ym.namespace; name = ref })))
          (lift-Refines view (deref cluster.infrastructure_ref)))
  cluster-Refines ym machine (err e) = pure-Refines view done
  cluster-Refines ym machine panic = fault-Refines view

  owner-Refines :
      (ym : YandexMachine) (owner : Option Machine)
      → Refines view
          (with_owner libs keys kube detailed ym owner)
          (with_owner libs keys same_kube abstract ym owner)
  unfolding with_owner
  owner-Refines ym none = pure-Refines view done
  owner-Refines ym (some machine) =
      inspect-Refines view (cluster-Refines ym machine) (L.get_cluster_from_metadata machine)

  found-Refines :
      (r : Result YandexMachine)
      → Refines view
          (with_machine libs keys kube detailed r)
          (with_machine libs keys same_kube abstract r)
  unfolding with_machine
  found-Refines (ok ym) = bind-Refines view (owner-Refines ym) (L.get_owner_machine ym)
  found-Refines (err e) =
      if-Refines view (libs.is_api_not_found e) (pure-Refines view done)
        (raise-Refines view (wrapped fetching_machine e))
  found-Refines panic = fault-Refines view

  -- Where each operation of a client refines that of another, and each call of an API server that of
  -- another, the whole `Reconcile` of the machine controller over the ones refines that over the
  -- others: it gives the same result and does the same to the world that is seen.
  pub reconcile_request-Refines :
      (key : ObjectKey)
      → Refines view
          (reconcile_request libs keys kube detailed key)
          (reconcile_request libs keys same_kube abstract key)
  unfolding reconcile_request
  reconcile_request-Refines key = inspect-Refines view found-Refines (L.get_yandex_machine key)
