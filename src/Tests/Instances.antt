-- ===== src/Tests/Instances.antt =====
-- The compute service over the small cloud.
use cluster_api_provider_yan.Prelude.{◌≡◌, ◌≢◌, ◌↔◌, ◌⊎◌, refl, true, some, [], ◌∷◌, arith, eq_iff}
use cluster_api_provider_yan.Prelude.Text.{trim_prefix}
use cluster_api_provider_yan.Exec.{Result, ok, err, is_ok}
use cluster_api_provider_yan.Exec.Errors.{Error, library}
use cluster_api_provider_yan.Cloud.Messages.{Instance}
use cluster_api_provider_yan.Cloud.Recording.{
  recording, recording_kube, delete_instance, deregister_target, register_target,
}
use cluster_api_provider_yan.Scope.Machine.{
  MachineState, get_instance_id, get_provider_id, parse_provider_id, is_not_found,
}
use cluster_api_provider_yan.LoadBalancer.Service.{remove_target}
use cluster_api_provider_yan.LoadBalancer.Alb.Reads.{is_address_registered_alb}
use cluster_api_provider_yan.LoadBalancer.Alb.Targets.{remove_target_alb}
use cluster_api_provider_yan.Compute.Service.{get_instance_address, reconcile, ensure_instance}
use cluster_api_provider_yan.Compute.Service.Deregistration.{due_deregistration, recorded_scope}
use cluster_api_provider_yan.Compute.Service.Calls.{
  delete_deleted_iff, delete_found_calls, delete_run,
}
use cluster_api_provider_yan.Compute.Service.Registration.{reconcile_existing_calls}
use cluster_api_provider_yan.Compute.Service.Status.{reconcile_status}
use cluster_api_provider_yan.Tests.Fixtures.{
  World, client, created, running, with_instance, full_world, keys, kube, libs, machine_scope,
}

pub has_instance : get_instance_id created ≢ ""
unfolding get_instance_id get_provider_id parse_provider_id trim_prefix
has_instance e = absurd (ground (arith, eq_iff "epd1" ""))

abbrev just_created : World
just_created = record full_world {
  instance = some (record { status = "PROVISIONING"; interfaces = "" ∷ [] });
}

reconcile_existing_calls_example :
    (reconcile libs keys
      (recording_kube kube)
      (recording client)
      (recorded_scope machine_scope)
      (record {
        world = record { world = with_instance; calls = [] };
        yandex_machine = created;
      })).1.world.calls
    ≡ register_target "10.0.0.2" "subnet1" ∷ []
unfolding get_instance_address
reconcile_existing_calls_example =
    reconcile_existing_calls libs keys kube client machine_scope created with_instance with_instance
      [] (ok running) has_instance refl

-- A control plane leaves the load balancer before its instance is deleted.
delete_found_calls_example :
    (delete_run libs keys kube client machine_scope created with_instance []).1.world.calls
    ≡ delete_instance "epd1" ∷ deregister_target "10.0.0.2" "subnet1" ∷ []
unfolding get_instance_id get_provider_id parse_provider_id trim_prefix remove_target
    remove_target_alb is_address_registered_alb
delete_found_calls_example =
    delete_found_calls libs keys kube client machine_scope created with_instance [] running
      with_instance has_instance refl (λ e. absurd (ground (arith, eq_iff "RUNNING" "DELETING")))

abbrev lost : Result Instance
lost = err (library 5)

delete_deleted_iff_example :
    ((delete_run libs keys kube client machine_scope created full_world []).0 ≡ ok true) ↔ (
      (get_instance_id created ≡ "")
      ⊎ ((e : Error) × (lost ≡ err e)
          × (is_not_found libs e ≡ true)
          × (is_ok (due_deregistration libs keys kube client machine_scope created full_world).0
              ≡ true)))
delete_deleted_iff_example =
    delete_deleted_iff libs keys kube client machine_scope created full_world [] lost full_world
      refl

-- A running control plane ends with its state noted.
abbrev started : MachineState World
started = record { world = just_created; yandex_machine = created }

reconcile_status_example :
    (reconcile libs keys kube client machine_scope started).1.yandex_machine.status.instance_status
    ≡ some "PROVISIONING"
unfolding get_instance_id get_provider_id parse_provider_id trim_prefix reconcile ensure_instance
reconcile_status_example =
    reconcile_status libs keys kube client machine_scope started
      (reconcile libs keys kube client machine_scope started).1 refl
