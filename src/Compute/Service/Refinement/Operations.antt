-- ===== src/Compute/Service/Refinement/Operations.antt =====
-- `Reconcile` and `Delete` of the compute service over two clients, API servers and load balancers.
use cluster_api_provider_yan.Prelude.{String, ◌==◌, true, false, some, refl, arith}
use cluster_api_provider_yan.Exec.{Result, ok, err, panic, modify, lift, raise, ◌>>◌}
use cluster_api_provider_yan.Exec.Errors.{Error, wrapped, registering, deregistering}
use cluster_api_provider_yan.Api.Machine.{YandexMachine, status_running, status_deleting}
use cluster_api_provider_yan.Cloud.{Client, Balancer}
use cluster_api_provider_yan.Cloud.Messages.{Instance}
use cluster_api_provider_yan.Cloud.Refinement.{
  RefinesClient, bind-Refines, pure-Refines, lift-Refines, raise-Refines, fault-Refines, if-Refines,
  modify-Refines, inspect-Refines, on_error-Refines,
}
use cluster_api_provider_yan.Kube.{Machine, Kube, Libraries}
use cluster_api_provider_yan.Kube.Refinement.{RefinesKube}
use cluster_api_provider_yan.Scope.Cluster.{ClusterScope}
use cluster_api_provider_yan.Scope.Labels.{CapiLabels}
use cluster_api_provider_yan.Scope.Machine.{
  MachineScope, get_instance_id, is_not_found, mark, set_instance_status, set_addresses,
}
use cluster_api_provider_yan.Compute.Service.{
  get_instance_address, ensure_instance, compute_get, instance_gone, instance_unknown,
  register_if_control_plane, instance_running, after_get, reconcile, deregister_if_control_plane,
  delete_missing, delete_existing, after_delete_get, delete,
}
use cluster_api_provider_yan.Exec.{on_error}
use cluster_api_provider_yan.Api.Conditions.{
  Mark, mark_true, mark_false, severity_error, condition_running, condition_error,
}
use cluster_api_provider_yan.Compute.Service.Refinement.Creation.{create-Refines}
use cluster_api_provider_yan.Compute.Service.Refinement.{
  RefinesBalancer, Seen, on_world-Refines, detailed_scope, abstract_scope, register-Refines,
  deregister-Refines,
}

module _ {S W : Type 0} (view : S → W) (libs : Libraries) (keys : CapiLabels) {kube : Kube S}
    {same_kube : Kube W} (L : RefinesKube view kube same_kube) {detailed : Client S}
    {abstract : Client W} (R : RefinesClient view detailed abstract) (cluster : ClusterScope)
    (machine : Machine) (original : YandexMachine) {balancer : Balancer S}
    {same_balancer : Balancer W} (B : RefinesBalancer view balancer same_balancer) where
  abbrev d : MachineScope S
  d = detailed_scope view cluster machine original B

  abbrev a : MachineScope W
  a = abstract_scope view cluster machine original B

  get-Refines :
      Seen view (compute_get libs keys kube detailed d) (compute_get libs keys same_kube abstract a)
  get-Refines = on_world-Refines view _ _ (λ ym. R.compute_get (get_instance_id ym))

  ensure-Refines :
      Seen view
        (ensure_instance libs keys kube detailed d)
        (ensure_instance libs keys same_kube abstract a)
  unfolding ensure_instance
  ensure-Refines =
      let create = create-Refines view libs keys L R cluster machine original B in
      record {
        same_result = λ s. grind (
          arith,
          (create s.yandex_machine).same_result s.world,
          (create s.yandex_machine).same_world s.world,
        );
        same_world = λ s. grind (
          arith,
          (create s.yandex_machine).same_result s.world,
          (create s.yandex_machine).same_world s.world,
        );
      }

  gone-Refines :
      (e : Error)
      → Seen view
          (instance_gone libs keys kube detailed d e)
          (instance_gone libs keys same_kube abstract a e)
  unfolding instance_gone
  gone-Refines e = record { same_result = λ s. refl; same_world = λ s. refl }

  unknown-Refines :
      (e : Error)
      → Seen view
          (instance_unknown libs keys kube detailed d e)
          (instance_unknown libs keys same_kube abstract a e)
  unfolding instance_unknown
  unknown-Refines e = record { same_result = λ s. refl; same_world = λ s. refl }

  register_if-Refines :
      Seen view
        (register_if_control_plane libs keys kube detailed d)
        (register_if_control_plane libs keys same_kube abstract a)
  unfolding register_if_control_plane
  register_if-Refines =
      if-Refines _ (libs.is_control_plane_machine machine)
        (on_error-Refines _ (λ e. raise-Refines _ (wrapped registering e))
          (register-Refines view cluster machine original B))
        (pure-Refines _ tt)

  marked-Refines : (m : Mark) → Seen view (modify (mark m)) (modify (mark m))
  marked-Refines m = modify-Refines _ (mark m) (mark m) (λ s. refl)

  -- The address of an instance, with the mark where it has none.
  address-Refines :
      (vm : Instance)
      → Seen view
          (on_error (lift (get_instance_address vm)) (λ e.
            modify (mark (mark_false condition_running condition_error severity_error (some e)))
            >> raise e))
          (on_error (lift (get_instance_address vm)) (λ e.
            modify (mark (mark_false condition_running condition_error severity_error (some e)))
            >> raise e))
  address-Refines vm =
      on_error-Refines _
        (λ e.
          bind-Refines _ (λ _. raise-Refines _ e)
            (marked-Refines (mark_false condition_running condition_error severity_error (some e))))
        (lift-Refines _ (get_instance_address vm))

  running-Refines :
      (vm : Instance)
      → Seen view
          (instance_running libs keys kube detailed d vm)
          (instance_running libs keys same_kube abstract a vm)
  unfolding instance_running
  running-Refines vm =
      bind-Refines _
        (λ address.
          bind-Refines _
            (λ _.
              bind-Refines _ (λ _. marked-Refines (mark_true condition_running))
                register_if-Refines)
            (modify-Refines _ (set_addresses address) (set_addresses address) (λ s. refl)))
        (address-Refines vm)

  after_get-Refines :
      (r : Result Instance)
      → Seen view
          (after_get libs keys kube detailed d r)
          (after_get libs keys same_kube abstract a r)
  unfolding after_get
  after_get-Refines (ok vm) =
      bind-Refines _
        (λ _.
          modify-Refines _ (set_instance_status vm.status) (set_instance_status vm.status)
            (λ s. refl))
        (if-Refines _ (vm.status == status_running) (running-Refines vm) (pure-Refines _ tt))
  after_get-Refines (err e) =
      if-Refines _ (is_not_found libs e) (gone-Refines e) (unknown-Refines e)
  after_get-Refines panic = fault-Refines _

  pub reconcile-Refines :
      Seen view (reconcile libs keys kube detailed d) (reconcile libs keys same_kube abstract a)
  unfolding reconcile
  reconcile-Refines =
      bind-Refines _ (λ _. inspect-Refines _ after_get-Refines get-Refines) ensure-Refines

  deregister_if-Refines :
      Seen view
        (deregister_if_control_plane libs keys kube detailed d)
        (deregister_if_control_plane libs keys same_kube abstract a)
  unfolding deregister_if_control_plane
  deregister_if-Refines =
      if-Refines _ (libs.is_control_plane_machine machine)
        (on_error-Refines _ (λ e. raise-Refines _ (wrapped deregistering e))
          (deregister-Refines view cluster machine original B))
        (pure-Refines _ tt)

  missing-Refines :
      Seen view
        (delete_missing libs keys kube detailed d)
        (delete_missing libs keys same_kube abstract a)
  unfolding delete_missing
  missing-Refines = bind-Refines _ (λ _. pure-Refines _ true) deregister_if-Refines

  existing-Refines :
      (id : String) (vm : Instance)
      → Seen view
          (delete_existing libs keys kube detailed d id vm)
          (delete_existing libs keys same_kube abstract a id vm)
  unfolding delete_existing
  existing-Refines id vm =
      bind-Refines _
        (λ _. if-Refines _ (vm.status == status_deleting) (pure-Refines _ false) (
          bind-Refines _
            (λ _.
              bind-Refines _ (λ _. pure-Refines _ false)
                (on_world-Refines view _ _ (λ ym. R.compute_delete id)))
            deregister_if-Refines))
        (modify-Refines _ (set_instance_status vm.status) (set_instance_status vm.status)
          (λ s. refl))

  looked_up-Refines :
      (id : String) (r : Result Instance)
      → Seen view
          (after_delete_get libs keys kube detailed d id r)
          (after_delete_get libs keys same_kube abstract a id r)
  unfolding after_delete_get
  looked_up-Refines id (ok vm) = existing-Refines id vm
  looked_up-Refines id (err e) =
      if-Refines _ (is_not_found libs e) missing-Refines (raise-Refines _ _)
  looked_up-Refines id panic = fault-Refines _

  pub delete-Refines :
      Seen view (delete libs keys kube detailed d) (delete libs keys same_kube abstract a)
  unfolding delete
  delete-Refines =
      let found = λ (id : String). inspect-Refines _ (looked_up-Refines id) get-Refines in
      record {
        same_result = λ s. ground (arith, (found (get_instance_id s.yandex_machine)).same_result s);
        same_world = λ s. ground (arith, (found (get_instance_id s.yandex_machine)).same_world s);
      }
