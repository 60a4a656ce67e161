-- ===== src/Controllers/Closing.antt =====
-- The deferred `Close` of both controllers: what a reconciliation writes to the API server.
use cluster_api_provider_yan.Prelude.{
  String, ◌≡◌, ◌≢◌, refl, ap, sym, ◌∙◌, ◌&&◌, true, List, ◌∷◌, if◌then◌else◌,
}
use cluster_api_provider_yan.Exec.{Result, ok, err, panic, is_ok, after_defer}
use cluster_api_provider_yan.Api.Cluster.{YandexCluster}
use cluster_api_provider_yan.Cloud.{Client}
use cluster_api_provider_yan.Cloud.Recording.{
  Call, Recorded, recording, recording_kube, patch_cluster_call, patch_machine_call,
}
use cluster_api_provider_yan.Api.Machine.{YandexMachine}
use cluster_api_provider_yan.Scope.Machine.{MachineScope, MachineState}
use cluster_api_provider_yan.Scope.Labels.{CapiLabels}
use cluster_api_provider_yan.Compute.Service.Deregistration.{recorded_scope}
use cluster_api_provider_yan.Kube.{Cluster, Kube, Libraries}
use cluster_api_provider_yan.Scope.Cluster.{ClusterState}
use cluster_api_provider_yan.Controllers.Outcome.{Outcome}
use cluster_api_provider_yan.Controllers.ClusterReconciler
use cluster_api_provider_yan.Controllers.MachineReconciler
use cluster_api_provider_yan.Controllers.ClusterReconciler.{has_finalizer}
use cluster_api_provider_yan.Controllers.ClusterReconciler.Endpoint.{scope_of}
use cluster_api_provider_yan.Controllers.ClusterReconciler.Finalizer.{Gone, reconcile_delete-Gone}

succeeds :
    (body : Result Outcome) (write : Result (Unit {0}))
    → is_ok (after_defer body write) ≡ (is_ok body && is_ok write)
succeeds (ok _) (ok _) = refl
succeeds (ok _) (err _) = refl
succeeds (ok _) panic = refl
succeeds (err _) (ok _) = refl
succeeds (err _) (err _) = refl
succeeds (err _) panic = refl
succeeds panic write = refl

module _ {W : Type 0} (libs : Libraries) (kube : Kube W) (client : Client W) (cluster : Cluster)
    (yc : YandexCluster) (w : W) (calls : List Call) where
  abbrev pub cluster_start : ClusterState (Recorded W)
  cluster_start = record { world = record { world = w; calls = calls }; yandex_cluster = yc }

  abbrev pub cluster_body : Result Outcome × ClusterState (Recorded W)
  cluster_body =
      if yc.deleted
      then ClusterReconciler.reconcile_delete libs (recording client) cluster cluster_start
      else ClusterReconciler.reconcile libs (recording client) cluster cluster_start

  abbrev pub cluster_run : Result Outcome × Recorded W
  cluster_run =
      ClusterReconciler.run_scope libs (recording_kube kube) (recording client) cluster yc
        (record { world = w; calls = calls })

  -- What the last write is answered.
  abbrev pub cluster_write : Result (Unit {0})
  cluster_write = (kube.patch_cluster yc cluster_body.1.yandex_cluster cluster_body.1.world.world).0

  -- The last write is of the object as the body leaves it.
  closed :
      cluster_run.1.calls
      ≡ patch_cluster_call cluster_body.1.yandex_cluster ∷ cluster_body.1.world.calls
  unfolding ClusterReconciler.run_scope
  closed = refl

  -- However the reconciliation of a cluster ends, an error or a panic included, the object as it
  -- then stands is written, as the last call; and the reconciliation succeeds exactly if its body
  -- and that write do.
  pub run_scope_closes :
      (cluster_run.1.calls
        ≡ patch_cluster_call cluster_body.1.yandex_cluster ∷ cluster_body.1.world.calls)
      × (is_ok cluster_run.0 ≡ (is_ok cluster_body.0 && is_ok cluster_write))
  run_scope_closes = (closed, unfold ClusterReconciler.run_scope in succeeds cluster_body.0 _)

  going_body :
      yc.deleted ≡ true
      → cluster_body
        ≡ ClusterReconciler.reconcile_delete libs (recording client) cluster cluster_start
  going_body going =
      ap
        (λ b.
          if b
          then ClusterReconciler.reconcile_delete libs (recording client) cluster cluster_start
          else ClusterReconciler.reconcile libs (recording client) cluster cluster_start)
        going

  abbrev finalizers_of : Result Outcome × ClusterState (Recorded W) → List String
  finalizers_of p = p.1.yandex_cluster.finalizers

  abbrev written : List Call → YandexCluster
  written (patch_cluster_call p ∷ _) = p
  written _ = yc

  -- For a cluster that is being deleted, the last write changes the finalizers only where the
  -- cluster has the controller's, its load balancer is an ALB, and the load balancer, its backend
  -- group and its target group were looked up in turn and none of them was found.
  pub run_scope_gives_up :
      (p : YandexCluster) (earlier : List Call)
      → yc.deleted ≡ true
      → cluster_run.1.calls ≡ patch_cluster_call p ∷ earlier
      → p.finalizers ≢ yc.finalizers
      → (has_finalizer libs (recording client) cluster_start ≡ true)
        × (w' : Recorded W) × Gone libs
            (recording client)
            cluster
            (scope_of libs (recording client) cluster cluster_start)
            (record { world = w; calls = calls })
            w'
  run_scope_gives_up p earlier going last changed =
      let same : cluster_body.1.yandex_cluster ≡ p = ap written (sym closed ∙ last) in
      reconcile_delete-Gone libs (recording client) cluster cluster_start (λ kept. changed (
        ap (λ (o : YandexCluster). o.finalizers) (sym same)
        ∙ ap finalizers_of (going_body going)
        ∙ kept))

module _ {W : Type 0} (libs : Libraries) (keys : CapiLabels) (kube : Kube W) (client : Client W)
    (scope : MachineScope W) (ym : YandexMachine) (w : W) (calls : List Call) where
  abbrev pub machine_start : MachineState (Recorded W)
  machine_start = record { world = record { world = w; calls = calls }; yandex_machine = ym }

  abbrev pub machine_body : Result Outcome × MachineState (Recorded W)
  machine_body =
      if ym.deleted
      then MachineReconciler.reconcile_delete libs keys (recording_kube kube) (recording client)
          (recorded_scope scope) machine_start
      else MachineReconciler.reconcile libs keys (recording_kube kube) (recording client)
          (recorded_scope scope) machine_start

  abbrev pub machine_run : Result Outcome × Recorded W
  machine_run =
      MachineReconciler.run_scope libs keys (recording_kube kube) (recording client)
        (recorded_scope scope) ym (record { world = w; calls = calls })

  -- What the last write is answered.
  abbrev pub machine_write : Result (Unit {0})
  machine_write =
      (kube.patch_machine scope.original machine_body.1.yandex_machine machine_body.1.world.world).0

  machine_closed :
      machine_run.1.calls
      ≡ patch_machine_call machine_body.1.yandex_machine ∷ machine_body.1.world.calls
  unfolding MachineReconciler.run_scope
  machine_closed = refl

  -- However the reconciliation of a machine ends, an error or a panic included, the object as it
  -- then stands is written, as the last call; and the reconciliation succeeds exactly if its body
  -- and that write do.
  pub run_scope_closes_machine :
      (machine_run.1.calls
        ≡ patch_machine_call machine_body.1.yandex_machine ∷ machine_body.1.world.calls)
      × (is_ok machine_run.0 ≡ (is_ok machine_body.0 && is_ok machine_write))
  run_scope_closes_machine =
      (machine_closed, unfold MachineReconciler.run_scope in succeeds machine_body.0 _)
