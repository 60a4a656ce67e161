-- ===== src/Compute/Service.antt =====
-- internal/pkg/cloud/services/compute/reconcile.go
pub mod Refinement
pub mod Quiet
pub mod Creation
pub mod Deregistration
pub mod Calls
pub mod Status
pub mod Reported
pub mod Registration
pub mod Counting
use cluster_api_provider_yan.Prelude.{
  String, ◌==◌, Bool, true, false, some, List, [], ◌∷◌, if◌then◌else◌,
}
use cluster_api_provider_yan.Exec.{
  Result, ok, err, panic, Exec, pure, raise, fault, lift, gets, modify, on_error, inspect, ◌>>=◌,
  ◌>>◌,
}
use cluster_api_provider_yan.Exec.Errors.{
  Error, wrapped, finding_instance, getting_for_delete, registering, deregistering,
  one_interface_only, ipv4_only, no_addresses,
}
use cluster_api_provider_yan.Api.Conditions.{
  mark_true, mark_false, mark_unknown, severity_error, condition_provisioning, condition_running,
  condition_error, condition_notfound,
}
use cluster_api_provider_yan.Api.Machine.{
  NetworkInterface, NodeAddress, node_internal_ip, YandexMachine, status_running, status_deleting,
  status_deleted,
}
use cluster_api_provider_yan.Cloud.{Client}
use cluster_api_provider_yan.Cloud.Messages.{Instance}
use cluster_api_provider_yan.Kube.{Kube, Libraries}
use cluster_api_provider_yan.Scope.Machine.{
  MachineScope, MachineState, on_world, set_addresses, set_instance_status, mark, set_provider_id,
  get_instance_id, is_control_plane, is_not_found,
}
use cluster_api_provider_yan.Scope.Labels.{CapiLabels}
use cluster_api_provider_yan.Scope.InstanceRequest.{get_instance_req}

-- Exactly one interface, and it has an IPv4 address.
unfoldable pub get_instance_address : Instance → Result (List NodeAddress)
get_instance_address vm = elim vm.interfaces [
  | [] ↦ err one_interface_only
  | address ∷ more ↦ elim more [
    | [] ↦
        if address == ""
        then err ipv4_only
        else ok (record { type = node_internal_ip; address = address } ∷ [])
    | _ ∷ _ ↦ err one_interface_only
  ]
]

abbrev pub first_subnet : List NetworkInterface → Result String
first_subnet [] = panic
first_subnet (ni ∷ _) = ok ni.subnet_id

module _ {W : Type 0} (scope : MachineScope W) where
  register_at : YandexMachine → List NodeAddress → Exec W (Unit {0})
  register_at ym [] = raise (no_addresses ym.name)
  register_at ym (a ∷ _) = do
    subnet_id ← lift (first_subnet ym.spec.network_interfaces)
    scope.load_balancer.add_target a.address subnet_id

  unfoldable pub register_control_plane : Exec (MachineState W) (Unit {0})
  unfolding register_at
  register_control_plane s =
      on_world (register_at s.yandex_machine s.yandex_machine.status.addresses) s

  deregister_at : YandexMachine → List NodeAddress → Exec W (Unit {0})
  deregister_at ym [] = pure tt
  deregister_at ym (a ∷ _) = do
    subnet_id ← lift (first_subnet ym.spec.network_interfaces)
    scope.load_balancer.remove_target a.address subnet_id

  unfoldable pub deregister_control_plane : Exec (MachineState W) (Unit {0})
  unfolding deregister_at
  deregister_control_plane s =
      on_world (deregister_at s.yandex_machine s.yandex_machine.status.addresses) s

module _ {W : Type 0} (libs : Libraries) (keys : CapiLabels) (kube : Kube W) (client : Client W)
    (scope : MachineScope W) where
  unfoldable pub create_compute_instance : YandexMachine → Exec W String
  create_compute_instance ym = do
    request ← get_instance_req libs keys kube scope ym
    client.compute_create request

  -- The instance is created, and its ID noted, only where the machine has none.
  unfoldable pub ensure_instance : Exec (MachineState W) (Unit {0})
  ensure_instance s =
      if get_instance_id s.yandex_machine == ""
      then (do
        new_instance_id ← on_error (on_world (create_compute_instance s.yandex_machine)) (λ e. do
          modify (mark (mark_false condition_running condition_notfound severity_error (some e)))
          raise e)
        modify (λ s'. record s' {
          yandex_machine = set_provider_id new_instance_id s'.yandex_machine;
        }))
          s
      else pure tt s

  abbrev compute_get : Exec (MachineState W) Instance
  compute_get s = on_world (client.compute_get (get_instance_id s.yandex_machine)) s

  -- The instance does not exist any more, which is no error.
  instance_gone : Error → Exec (MachineState W) (Unit {0})
  instance_gone e = do
    modify (set_instance_status status_deleted)
    modify (mark (mark_true condition_notfound))
    modify (mark (mark_false condition_provisioning condition_error severity_error (some e)))
    modify (mark (mark_false condition_running condition_error severity_error (some e)))

  instance_unknown : Error → Exec (MachineState W) (Unit {0})
  instance_unknown e = do
    modify (mark (mark_unknown condition_provisioning condition_notfound (some e)))
    modify (mark (mark_unknown condition_running condition_notfound (some e)))
    id ← gets (λ s. get_instance_id s.yandex_machine)
    raise (wrapped (finding_instance id) e)

  register_if_control_plane : Exec (MachineState W) (Unit {0})
  register_if_control_plane =
      if is_control_plane libs scope
      then on_error (register_control_plane scope) (λ e. raise (wrapped registering e))
      else pure tt

  -- The instance runs: its address is noted and, of a control plane, registered.
  instance_running : Instance → Exec (MachineState W) (Unit {0})
  instance_running vm = do
    address ← on_error (lift (get_instance_address vm)) (λ e. do
      modify (mark (mark_false condition_running condition_error severity_error (some e)))
      raise e)
    modify (set_addresses address)
    register_if_control_plane
    modify (mark (mark_true condition_running))

  after_get : Result Instance → Exec (MachineState W) (Unit {0})
  after_get (ok vm) = do
    if vm.status == status_running then instance_running vm else pure tt
    modify (set_instance_status vm.status)
  after_get (err e) = if is_not_found libs e then instance_gone e else instance_unknown e
  after_get panic = fault

  unfoldable pub reconcile : Exec (MachineState W) (Unit {0})
  unfolding ensure_instance after_get instance_gone instance_unknown instance_running
      register_if_control_plane
  reconcile = do ensure_instance; inspect compute_get after_get

  pub deregister_if_control_plane : Exec (MachineState W) (Unit {0})
  deregister_if_control_plane =
      if is_control_plane libs scope
      then on_error (deregister_control_plane scope) (λ e. raise (wrapped deregistering e))
      else pure tt

  -- `true` is `instanceDeleted`.
  delete_missing : Exec (MachineState W) Bool
  delete_missing = do deregister_if_control_plane; pure true

  delete_existing : String → Instance → Exec (MachineState W) Bool
  delete_existing instance_id vm = do
    modify (set_instance_status vm.status)
    if vm.status == status_deleting then pure false else do
      deregister_if_control_plane
      on_world (client.compute_delete instance_id)
      pure false

  after_delete_get : String → Result Instance → Exec (MachineState W) Bool
  after_delete_get instance_id (ok vm) = delete_existing instance_id vm
  after_delete_get instance_id (err e) =
      if is_not_found libs e
      then delete_missing
      else raise (wrapped (getting_for_delete instance_id) e)
  after_delete_get instance_id panic = fault

  unfoldable pub delete : Exec (MachineState W) Bool
  unfolding after_delete_get delete_missing delete_existing deregister_if_control_plane
  delete s =
      let instance_id = get_instance_id s.yandex_machine in
      if instance_id == ""
      then pure true s
      else inspect compute_get (after_delete_get instance_id) s
