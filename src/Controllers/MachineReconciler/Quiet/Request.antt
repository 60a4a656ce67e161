-- ===== src/Controllers/MachineReconciler/Quiet/Request.antt =====
-- `Reconcile` of the machine controller, from the machine that is read to the end.
use cluster_api_provider_yan.Prelude.{Bool, Option, none, some, ◌≡◌, ◌≢◌}
use cluster_api_provider_yan.Exec.{Result, ok, err, panic, deref}
use cluster_api_provider_yan.Exec.Errors.{wrapped, patch_helper}
use cluster_api_provider_yan.Api.Cluster.{YandexCluster}
use cluster_api_provider_yan.Api.Machine.{YandexMachine}
use cluster_api_provider_yan.Cloud.{Client}
use cluster_api_provider_yan.Cloud.Recording.{Recorded, recording, recording_kube}
use cluster_api_provider_yan.Cloud.Quiet.{
  Only, MakesOnly, MakesOwnCalls, recording-MakesOwnCalls, bind-Makes, bind_made-Makes, raise-Makes,
  fault-Makes, pure-Makes, lift-Makes, if-Makes, inspect-Makes, on_error-Makes,
}
use cluster_api_provider_yan.Kube.{Cluster, Machine, Kube, Libraries, ObjectKey}
use cluster_api_provider_yan.Kube.Quiet.{MakesOwnPatches, recording_kube-MakesOwnPatches}
use cluster_api_provider_yan.Scope.Cluster.{new_cluster_scope}
use cluster_api_provider_yan.Scope.Labels.{CapiLabels}
use cluster_api_provider_yan.Scope.Machine.{get_instance_id, new_machine_scope}
use cluster_api_provider_yan.Compute.Service.Quiet.{Permitted}
use cluster_api_provider_yan.Controllers.Outcome.{done}
use cluster_api_provider_yan.Controllers.MachineReconciler.{
  run_scope, make_scopes, with_yandex_cluster, with_cluster, with_owner, with_machine,
  reconcile_request,
}
use cluster_api_provider_yan.Controllers.MachineReconciler.Quiet.{run-MakesOnly}

module _ {W : Type 0} (libs : Libraries) (keys : CapiLabels) {kube : Kube (Recorded W)}
    {client : Client (Recorded W)} (ym : YandexMachine) (present : get_instance_id ym ≢ "")
    (patches : (deleted : Bool) → MakesOwnPatches (Permitted ym deleted) kube)
    (own : (deleted : Bool) → MakesOwnCalls (Permitted ym deleted) client) where
  scopes-MakesOnly :
      (machine : Machine) (cluster : Cluster) (yc : YandexCluster)
      → MakesOnly
          (Permitted ym ym.deleted)
          (make_scopes libs keys kube client ym machine cluster yc)
  unfolding make_scopes new_cluster_scope new_machine_scope
  scopes-MakesOnly machine cluster yc =
      let at = patches ym.deleted in
      bind-Makes
        (bind-Makes
          (on_error-Makes (at.new_cluster_helper yc) (λ e. raise-Makes (wrapped patch_helper e)))
          (λ _. pure-Makes (record { cluster = cluster; yandex_cluster = yc })))
        (λ c.
          bind_made-Makes (λ scope. run_scope libs keys kube client scope ym)
            (on_error-Makes (at.new_machine_helper ym) (λ e. raise-Makes (wrapped patch_helper e)))
            (run-MakesOnly libs keys ym present patches own c machine ym))

  yandex_cluster-MakesOnly :
      (machine : Machine) (cluster : Cluster) (r : Result YandexCluster)
      → MakesOnly
          (Permitted ym ym.deleted)
          (with_yandex_cluster libs keys kube client ym machine cluster r)
  unfolding with_yandex_cluster
  yandex_cluster-MakesOnly machine cluster (ok yc) = scopes-MakesOnly machine cluster yc
  yandex_cluster-MakesOnly machine cluster (err e) = pure-Makes done
  yandex_cluster-MakesOnly machine cluster panic = fault-Makes

  cluster-MakesOnly :
      (machine : Machine) (r : Result Cluster)
      → MakesOnly (Permitted ym ym.deleted) (with_cluster libs keys kube client ym machine r)
  unfolding with_cluster
  cluster-MakesOnly machine (ok cluster) =
      if-Makes (libs.is_machine_paused cluster ym) (pure-Makes done) (
        bind-Makes (lift-Makes (deref cluster.infrastructure_ref)) (λ ref.
          inspect-Makes ((patches ym.deleted).get_yandex_cluster _)
            (yandex_cluster-MakesOnly machine cluster)))
  cluster-MakesOnly machine (err e) = pure-Makes done
  cluster-MakesOnly machine panic = fault-Makes

  owner-MakesOnly :
      (owner : Option Machine)
      → MakesOnly (Permitted ym ym.deleted) (with_owner libs keys kube client ym owner)
  unfolding with_owner
  owner-MakesOnly none = pure-Makes done
  owner-MakesOnly (some machine) =
      inspect-Makes ((patches ym.deleted).get_cluster_from_metadata machine)
        (cluster-MakesOnly machine)

  found-MakesOnly : MakesOnly (Permitted ym ym.deleted) (with_machine libs keys kube client (ok ym))
  unfolding with_machine
  found-MakesOnly = bind-Makes ((patches ym.deleted).get_owner_machine ym) owner-MakesOnly

-- Where the machine that `Reconcile` reads has an instance, all that the whole `Reconcile` asks for,
-- whatever fails on the way, is what is permitted of that machine: no instance is asked for; only
-- the machine's own instance is deleted, and only of a machine that is being deleted; targets are
-- added to a target group only of a machine that is not being deleted, and removed only of one that
-- is; nothing of a load balancer is created or deleted; every patch is of a machine with the
-- specification, the name and the namespace of the one that was read.
pub reconcile_request-Permitted :
    {W : Type 0} (libs : Libraries) (keys : CapiLabels) (kube : Kube W) (client : Client W)
    (key : ObjectKey) (s : Recorded W) (ym : YandexMachine)
    → (kube.get_yandex_machine key s.world).0 ≡ ok ym
    → get_instance_id ym ≢ ""
    → Only
        (Permitted ym ym.deleted)
        s.calls
        (reconcile_request libs keys (recording_kube kube) (recording client) key s).1.calls
unfolding reconcile_request
reconcile_request-Permitted libs keys kube client key s ym read present = rw read (
    (found-MakesOnly libs keys ym present (λ d. recording_kube-MakesOwnPatches _ kube)
        (λ d. recording-MakesOwnCalls _ client)).only
      _ tt)
