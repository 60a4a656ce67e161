-- ===== src/Controllers/MachineReconciler/Quiet.antt =====
-- Which calls a whole `Reconcile` of a machine that has an instance makes.
pub mod Request
use cluster_api_provider_yan.Prelude.{
  String, ◌==◌, ◌||◌, Bool, true, false, Option, none, some, ◌≡◌, ◌≢◌, refl, ◌∙◌, if◌then◌else◌,
}
use cluster_api_provider_yan.Exec.{Result, ok, err, panic, modify, deref, gets}
use cluster_api_provider_yan.Exec.Errors.{
  wrapped, patch_helper, adding_finalizer, reconciling_instance, deleting_instance,
  fetching_machine,
}
use cluster_api_provider_yan.Api.Cluster.{YandexCluster}
use cluster_api_provider_yan.Api.Machine.{
  InstanceStatus, YandexMachine, status_starting, status_provisioning, status_running,
  update_machine_error, unexpected_state,
}
use cluster_api_provider_yan.Cloud.{Client}
use cluster_api_provider_yan.Cloud.Recording.{Call, Recorded, recording, recording_kube}
use cluster_api_provider_yan.Cloud.Quiet.{
  Only, MakesOnly, MakesOwnCalls, recording-MakesOwnCalls, bind-Makes, raise-Makes, fault-Makes,
  pure-Makes, lift-Makes, gets-Makes, if-Makes, inspect-Makes, on_error-Makes, deferred-Makes,
}
use cluster_api_provider_yan.Kube.{Cluster, Machine, Kube, Libraries, ObjectKey}
use cluster_api_provider_yan.Kube.Quiet.{MakesOwnPatches, recording_kube-MakesOwnPatches}
use cluster_api_provider_yan.Scope.Cluster.{ClusterScope, new_cluster_scope}
use cluster_api_provider_yan.Scope.Labels.{CapiLabels}
use cluster_api_provider_yan.Scope.Machine.{
  MachineScope, MachineState, get_instance_id, set_ready, set_failure_reason, set_failure_message,
  patch_object, new_machine_scope,
}
use cluster_api_provider_yan.LoadBalancer.Service.{balancer}
use cluster_api_provider_yan.LoadBalancer.Service.Quiet.{
  add_target-MakesOnly, remove_target-MakesOnly,
}
use cluster_api_provider_yan.Compute.Service.Quiet.{
  Permitted, Keeping, on_world-Keeping, modify-Keeping,
}
use cluster_api_provider_yan.Compute.Service.Quiet.Operations.{reconcile-Keeping, delete-Keeping}
use cluster_api_provider_yan.Controllers.Outcome.{done, again_later}
use cluster_api_provider_yan.Controllers.MachineReconciler.{
  by_state, reconcile_instance, when_bootstrapped, reconcile, after_delete, reconcile_delete,
  run_scope, make_scopes, with_yandex_cluster, with_cluster, with_owner, with_machine,
  reconcile_request, add_finalizer, remove_finalizer,
}

module _ {W : Type 0} (libs : Libraries) (keys : CapiLabels) {kube : Kube (Recorded W)}
    {client : Client (Recorded W)} (read : YandexMachine) (present : get_instance_id read ≢ "")
    (patches : (deleted : Bool) → MakesOwnPatches (Permitted read deleted) kube)
    (own : (deleted : Bool) → MakesOwnCalls (Permitted read deleted) client) where
  module _ (c : ClusterScope) (machine : Machine) (original : YandexMachine) where
    -- The scope as `Reconcile` makes it.
    abbrev scope : MachineScope (Recorded W)
    scope = record {
      cluster = c;
      load_balancer = balancer libs client c;
      machine = machine;
      original = original;
    }

    state-Keeping :
        (state : InstanceStatus)
        → Keeping read (Permitted read false) (by_state libs keys kube client state)
    unfolding by_state
    state-Keeping state =
        if-Makes (state == status_starting || state == status_provisioning) (pure-Makes again_later)
          (if-Makes (state == status_running)
            (bind-Makes (modify-Keeping set_ready (λ s. refl) (λ s. (refl, refl, refl)))
              (λ _. pure-Makes done))
            (bind-Makes
              (modify-Keeping (set_failure_reason update_machine_error) (λ s. refl)
                (λ s. (refl, refl, refl)))
              (λ _.
                bind-Makes
                  (modify-Keeping (set_failure_message (unexpected_state state)) (λ s. refl)
                    (λ s. (refl, refl, refl)))
                  (λ _. pure-Makes again_later))))

    instance-Keeping :
        Keeping read (Permitted read false) (reconcile_instance libs keys kube client scope)
    unfolding reconcile_instance Permitted
    instance-Keeping =
        bind-Makes
          (on_error-Makes
            (reconcile-Keeping libs keys kube read scope (own false)
              (λ addr subnet. add_target-MakesOnly libs (own false) c addr subnet (λ req. refl))
              present)
            (λ e. raise-Makes (wrapped reconciling_instance e)))
          (λ _.
            bind-Makes (gets-Makes (λ s. s.yandex_machine.status.instance_status))
              (λ current. bind-Makes (lift-Makes (deref current)) state-Keeping))

    bootstrapped-Keeping :
        (secret : Option String)
        → Keeping read (Permitted read false) (when_bootstrapped libs keys kube client scope secret)
    unfolding when_bootstrapped
    bootstrapped-Keeping none = pure-Makes done
    bootstrapped-Keeping (some _) = instance-Keeping

    patch-Keeping :
        (deleted : Bool) → Keeping read (Permitted read deleted) (patch_object kube scope)
    unfolding Permitted
    patch-Keeping deleted =
        on_world-Keeping _ (λ ym k. (patches deleted).patch_machine original ym k)

    reconcile_live-Keeping :
        Keeping read (Permitted read false) (reconcile libs keys kube client scope)
    unfolding reconcile
    reconcile_live-Keeping =
        bind-Makes
          (modify-Keeping (add_finalizer libs keys kube client) (λ s. refl)
            (λ s. (refl, refl, refl)))
          (λ _.
            bind-Makes
              (on_error-Makes (patch-Keeping false) (λ e. raise-Makes (wrapped adding_finalizer e)))
              (λ _. bootstrapped-Keeping machine.data_secret_name))

    after_delete-Keeping :
        (gone : Bool) → Keeping read (Permitted read true) (after_delete libs keys kube client gone)
    unfolding after_delete
    after_delete-Keeping gone =
        if-Makes gone
          (bind-Makes
            (modify-Keeping (remove_finalizer libs keys kube client) (λ s. refl)
              (λ s. (refl, refl, refl)))
            (λ _. pure-Makes done))
          (pure-Makes again_later)

    reconcile_delete-Keeping :
        Keeping read (Permitted read true) (reconcile_delete libs keys kube client scope)
    unfolding reconcile_delete Permitted
    reconcile_delete-Keeping =
        bind-Makes
          (on_error-Makes
            (delete-Keeping libs keys kube read scope (own true)
              (λ addr subnet. remove_target-MakesOnly libs (own true) c addr subnet (λ req. refl)))
            (λ e. raise-Makes (wrapped deleting_instance e)))
          after_delete-Keeping

    body-Keeping :
        (deleted : Bool)
        → Keeping read (Permitted read deleted) (λ s.
          if deleted
          then reconcile_delete libs keys kube client scope s
          else reconcile libs keys kube client scope s)
    body-Keeping true = reconcile_delete-Keeping
    body-Keeping false = reconcile_live-Keeping

    pub run-MakesOnly :
        MakesOnly (Permitted read read.deleted) (run_scope libs keys kube client scope read)
    unfolding run_scope
    run-MakesOnly =
        let all = deferred-Makes (patch-Keeping read.deleted) (body-Keeping read.deleted) in
        record {
          only = λ w i.
              all.only (record { world = w; yandex_machine = read })
                (record { same_spec = refl; same_name = refl; same_namespace = refl });
          keeps = λ w i. i;
        }
