-- ===== src/Controllers/MachineReconciler/Refinement.antt =====
-- The machine controller over two clients and two API servers, of which the one refine the others.
pub mod Request
use cluster_api_provider_yan.Prelude.{
  String, Bool, Option, none, some, refl, ap, arith, if◌then◌else◌,
}
use cluster_api_provider_yan.Exec.{Result, ok, err, panic, gets, deref}
use cluster_api_provider_yan.Exec.Errors.{
  wrapped, patch_helper, adding_finalizer, reconciling_instance, deleting_instance,
  fetching_machine,
}
use cluster_api_provider_yan.Api.Cluster.{YandexCluster}
use cluster_api_provider_yan.Api.Machine.{InstanceStatus, YandexMachine}
use cluster_api_provider_yan.Cloud.{Client, Balancer}
use cluster_api_provider_yan.Cloud.Refinement.{
  Refines, RefinesClient, bind-Refines, pure-Refines, lift-Refines, raise-Refines, fault-Refines,
  if-Refines, modify-Refines, inspect-Refines, on_error-Refines, deferred-Refines,
  bind_made-Refines,
}
use cluster_api_provider_yan.Kube.{Cluster, Machine, Kube, Libraries, ObjectKey}
use cluster_api_provider_yan.Kube.Refinement.{RefinesKube}
use cluster_api_provider_yan.Scope.Cluster.{ClusterScope}
use cluster_api_provider_yan.Scope.Labels.{CapiLabels}
use cluster_api_provider_yan.Scope.Machine.{
  MachineScope, MachineState, patch_object, new_machine_scope,
}
use cluster_api_provider_yan.LoadBalancer.Service.{balancer}
use cluster_api_provider_yan.LoadBalancer.Service.Refinement.{
  add_target-Refines, remove_target-Refines,
}
use cluster_api_provider_yan.Compute.Service.Refinement.{
  RefinesBalancer, machine_view, Seen, on_world-Refines, detailed_scope, abstract_scope,
}
use cluster_api_provider_yan.Compute.Service.Refinement.Operations
use cluster_api_provider_yan.Controllers.ClusterReconciler.Refinement.{scope-Refines}
use cluster_api_provider_yan.Controllers.Outcome.{done}
use cluster_api_provider_yan.Controllers.MachineReconciler.{
  by_state, reconcile_instance, when_bootstrapped, reconcile, after_delete, reconcile_delete,
  run_scope, make_scopes, with_yandex_cluster, with_cluster, with_owner, with_machine,
  reconcile_request, add_finalizer,
}

module _ {S W : Type 0} (view : S → W) (libs : Libraries) (keys : CapiLabels) {kube : Kube S}
    {same_kube : Kube W} (L : RefinesKube view kube same_kube) {detailed : Client S}
    {abstract : Client W} (R : RefinesClient view detailed abstract) where
  module _ (cluster : ClusterScope) (machine : Machine) (original : YandexMachine) {lb : Balancer S}
      {same_lb : Balancer W} (B : RefinesBalancer view lb same_lb) where
    abbrev d : MachineScope S
    d = detailed_scope view cluster machine original B

    abbrev a : MachineScope W
    a = abstract_scope view cluster machine original B

    state-Refines :
        (state : InstanceStatus)
        → Seen view
            (by_state libs keys kube detailed state)
            (by_state libs keys same_kube abstract state)
    unfolding by_state
    state-Refines state = record { same_result = λ s. ground arith; same_world = λ s. ground arith }

    told-Refines :
        Seen view
          (gets (λ s. s.yandex_machine.status.instance_status))
          (gets (λ s. s.yandex_machine.status.instance_status))
    told-Refines = record { same_result = λ s. refl; same_world = λ s. refl }

    instance-Refines :
        Seen view
          (reconcile_instance libs keys kube detailed d)
          (reconcile_instance libs keys same_kube abstract a)
    unfolding reconcile_instance
    instance-Refines =
        bind-Refines _
          (λ _.
            bind-Refines _
              (λ current. bind-Refines _ state-Refines (lift-Refines _ (deref current)))
              told-Refines)
          (on_error-Refines _ (λ e. raise-Refines _ (wrapped reconciling_instance e))
            (Operations.reconcile-Refines view libs keys L R cluster machine original B))

    bootstrapped-Refines :
        (secret : Option String)
        → Seen view
            (when_bootstrapped libs keys kube detailed d secret)
            (when_bootstrapped libs keys same_kube abstract a secret)
    unfolding when_bootstrapped
    bootstrapped-Refines none = pure-Refines _ done
    bootstrapped-Refines (some _) = instance-Refines

    patch-Refines : Seen view (patch_object kube d) (patch_object same_kube a)
    patch-Refines = on_world-Refines view _ _ (λ ym. L.patch_machine original ym)

    reconcile-Refines :
        Seen view (reconcile libs keys kube detailed d) (reconcile libs keys same_kube abstract a)
    unfolding reconcile
    reconcile-Refines =
        bind-Refines _
          (λ _.
            bind-Refines _ (λ _. bootstrapped-Refines machine.data_secret_name)
              (on_error-Refines _ (λ e. raise-Refines _ (wrapped adding_finalizer e))
                patch-Refines))
          (modify-Refines _ (add_finalizer libs keys kube detailed)
            (add_finalizer libs keys same_kube abstract) (λ s. refl))

    deleted-Refines :
        (deleted : Bool)
        → Seen view
            (after_delete libs keys kube detailed deleted)
            (after_delete libs keys same_kube abstract deleted)
    unfolding after_delete
    deleted-Refines deleted = record {
      same_result = λ s. ground arith;
      same_world = λ s. ground arith;
    }

    reconcile_delete-Refines :
        Seen view
          (reconcile_delete libs keys kube detailed d)
          (reconcile_delete libs keys same_kube abstract a)
    unfolding reconcile_delete
    reconcile_delete-Refines = bind-Refines _ deleted-Refines (
        on_error-Refines _ (λ e. raise-Refines _ (wrapped deleting_instance e))
          (Operations.delete-Refines view libs keys L R cluster machine original B))

    body-Refines :
        (ym : YandexMachine)
        → Seen view
            (λ s.
              if ym.deleted
              then reconcile_delete libs keys kube detailed d s
              else reconcile libs keys kube detailed d s)
            (λ s.
              if ym.deleted
              then reconcile_delete libs keys same_kube abstract a s
              else reconcile libs keys same_kube abstract a s)
    body-Refines ym = record {
      same_result = λ s.
          ground (arith, reconcile_delete-Refines.same_result s, reconcile-Refines.same_result s);
      same_world = λ s.
          ground (arith, reconcile_delete-Refines.same_world s, reconcile-Refines.same_world s);
    }

    pub run-Refines :
        (ym : YandexMachine)
        → Refines view
            (run_scope libs keys kube detailed d ym)
            (run_scope libs keys same_kube abstract a ym)
    unfolding run_scope
    run-Refines ym =
        let all = deferred-Refines (machine_view view) patch-Refines (body-Refines ym) in
        record {
          same_result = λ w. all.same_result (record { world = w; yandex_machine = ym });
          same_world = λ w.
              ap (λ (s : MachineState W). s.world)
                (all.same_world (record { world = w; yandex_machine = ym }));
        }
