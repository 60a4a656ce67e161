-- ===== src/Controllers/MachineReconciler.antt =====
-- controllers/yandexmachine_controller.go: `YandexMachineReconciler`
pub mod Progress
pub mod Created
pub mod Repeated
pub mod Requests
pub mod Finalizer
pub mod Admission
pub mod Refinement
pub mod Quiet
use cluster_api_provider_yan.Prelude.{
  String, ◌==◌, ◌||◌, Bool, true, Option, none, some, List, [], ◌∷◌, if◌then◌else◌,
}
use cluster_api_provider_yan.Exec.{
  Result, ok, err, panic, Exec, pure, raise, fault, lift, gets, modify, on_error, inspect, deferred,
  deref, ◌>>=◌, ◌>>◌,
}
use cluster_api_provider_yan.Exec.Errors.{
  wrapped, adding_finalizer, reconciling_instance, deleting_instance, fetching_machine,
}
use cluster_api_provider_yan.Api.Cluster.{YandexCluster}
use cluster_api_provider_yan.Api.Machine.{
  InstanceStatus, YandexMachine, machine_finalizer, status_starting, status_provisioning,
  status_running, update_machine_error, unexpected_state,
}
use cluster_api_provider_yan.Cloud.{Client}
use cluster_api_provider_yan.Kube.{ObjectKey, Cluster, Machine, Kube, Libraries}
use cluster_api_provider_yan.Scope.Cluster.{new_cluster_scope}
use cluster_api_provider_yan.Scope.Machine.{
  MachineScope, MachineState, new_machine_scope, set_ready, set_failure_reason, set_failure_message,
  patch_object,
}
use cluster_api_provider_yan.Scope.Labels.{CapiLabels}
use cluster_api_provider_yan.LoadBalancer.Service.{balancer}
use cluster_api_provider_yan.Compute.Service
use cluster_api_provider_yan.Controllers.Outcome.{Outcome, done, again_later}

module _ {W : Type 0} (libs : Libraries) (keys : CapiLabels) (kube : Kube W)
    (client : Client W) where
  -- The `switch` on the state of the instance.
  by_state : InstanceStatus → Exec (MachineState W) Outcome
  by_state state =
      if state == status_starting || state == status_provisioning
      then pure again_later
      else if state == status_running
      then modify set_ready >> pure done
      else do
        modify (set_failure_reason update_machine_error)
        modify (set_failure_message (unexpected_state state))
        pure again_later

  pub reconcile_instance : MachineScope W → Exec (MachineState W) Outcome
  unfolding by_state
  reconcile_instance scope = do
    on_error (Service.reconcile libs keys kube client scope)
        (λ e. raise (wrapped reconciling_instance e))
    current ← gets (λ s. s.yandex_machine.status.instance_status)
    state ← lift (deref current)
    by_state state

  abbrev add_finalizer : MachineState W → MachineState W
  add_finalizer s =
      let ym = s.yandex_machine in
      record s {
        yandex_machine = record ym {
          finalizers = libs.add_finalizer ym.finalizers machine_finalizer;
        };
      }

  abbrev remove_finalizer : MachineState W → MachineState W
  remove_finalizer s =
      let ym = s.yandex_machine in
      record s {
        yandex_machine = record ym {
          finalizers = libs.remove_finalizer ym.finalizers machine_finalizer;
        };
      }

  -- Without bootstrap data the rest waits for another event.
  pub when_bootstrapped : MachineScope W → Option String → Exec (MachineState W) Outcome
  unfolding reconcile_instance
  when_bootstrapped scope none = pure done
  when_bootstrapped scope (some _) = reconcile_instance scope

  unfoldable pub reconcile : MachineScope W → Exec (MachineState W) Outcome
  unfolding when_bootstrapped
  reconcile scope = do
    modify add_finalizer
    on_error (patch_object kube scope) (λ e. raise (wrapped adding_finalizer e))
    when_bootstrapped scope scope.machine.data_secret_name

  after_delete : Bool → Exec (MachineState W) Outcome
  after_delete deleted = if deleted then modify remove_finalizer >> pure done else pure again_later

  unfoldable pub reconcile_delete : MachineScope W → Exec (MachineState W) Outcome
  unfolding after_delete
  reconcile_delete scope = do
    deleted ←
        on_error (Service.delete libs keys kube client scope)
          (λ e. raise (wrapped deleting_instance e))
    after_delete deleted

  -- The body of `Reconcile` once the scope is made, with its deferred `Close`.
  unfoldable pub run_scope : MachineScope W → YandexMachine → Exec W Outcome
  run_scope scope ym w =
      let body = λ (s : MachineState W).
        if ym.deleted then reconcile_delete scope s else reconcile scope s in
      let (r, s) =
        deferred (patch_object kube scope) body (record { world = w; yandex_machine = ym }) in
      (r, s.world)

  make_scopes : YandexMachine → Machine → Cluster → YandexCluster → Exec W Outcome
  make_scopes ym machine cluster yandex_cluster = do
    c ← new_cluster_scope kube (record {
      client = true;
      cluster = some cluster;
      yandex_cluster = some yandex_cluster;
      yandex_client = true;
    })
    scope ← new_machine_scope kube (record {
      client = true;
      cluster_getter = c;
      machine = some machine;
      yandex_machine = some ym;
      load_balancer = some (balancer libs client c);
    })
    run_scope scope ym

  -- A YandexCluster that cannot be read is not available yet.
  with_yandex_cluster : YandexMachine → Machine → Cluster → Result YandexCluster → Exec W Outcome
  unfolding make_scopes
  with_yandex_cluster ym machine cluster (ok yc) = make_scopes ym machine cluster yc
  with_yandex_cluster ym machine cluster (err e) = pure done
  with_yandex_cluster ym machine cluster panic = fault

  with_cluster : YandexMachine → Machine → Result Cluster → Exec W Outcome
  unfolding with_yandex_cluster
  with_cluster ym machine (ok cluster) = if libs.is_machine_paused cluster ym then pure done else do
    ref ← lift (deref cluster.infrastructure_ref)
    inspect (kube.get_yandex_cluster (record { namespace = ym.namespace; name = ref }))
        (with_yandex_cluster ym machine cluster)
  with_cluster ym machine (err e) = pure done
  with_cluster ym machine panic = fault

  with_owner : YandexMachine → Option Machine → Exec W Outcome
  unfolding with_cluster
  with_owner ym none = pure done
  with_owner ym (some machine) =
      inspect (kube.get_cluster_from_metadata machine) (with_cluster ym machine)

  with_machine : Result YandexMachine → Exec W Outcome
  unfolding with_owner
  with_machine (ok ym) = do owner ← kube.get_owner_machine ym; with_owner ym owner
  with_machine (err e) =
      if libs.is_api_not_found e then pure done else raise (wrapped fetching_machine e)
  with_machine panic = fault

  -- `Reconcile`
  unfoldable pub reconcile_request : ObjectKey → Exec W Outcome
  unfolding with_machine
  reconcile_request key = inspect (kube.get_yandex_machine key) with_machine

-- The requests of the machines that name an infrastructure object.
unfoldable pub machine_requests : List Machine → List ObjectKey
machine_requests [] = []
machine_requests (m ∷ ms) =
    let rest = machine_requests ms in
    if m.infrastructure_ref_name == ""
    then rest
    else record { namespace = m.namespace; name = m.infrastructure_ref_name } ∷ rest

module _ {W : Type 0} (libs : Libraries) (kube : Kube W) where
  after_list : Result (List Machine) → Exec W (List ObjectKey)
  unfolding machine_requests
  after_list (ok machines) = pure (machine_requests machines)
  after_list (err e) = pure []
  after_list panic = fault

  -- Errors are logged, and give no request.
  after_owner : String → Result (Option Cluster) → Exec W (List ObjectKey)
  unfolding after_list
  after_owner namespace (ok none) = pure []
  after_owner namespace (ok (some cluster)) =
      inspect (kube.list_machines namespace cluster.name) after_list
  after_owner namespace (err e) = pure []
  after_owner namespace panic = fault

  -- `YandexClusterToYandexMachines`, at an object of the right kind in the namespace.
  unfoldable pub yandex_cluster_to_yandex_machines :
      String → YandexCluster → Exec W (List ObjectKey)
  unfolding after_owner
  yandex_cluster_to_yandex_machines namespace yc =
      inspect (kube.get_owner_cluster yc) (after_owner namespace)
