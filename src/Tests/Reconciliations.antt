-- ===== src/Tests/Reconciliations.antt =====
-- The controllers over the small cloud.
use cluster_api_provider_yan.Cloud.Recording.{patch_machine_call}
use cluster_api_provider_yan.Tests.Fixtures.{yandex_machine}
use cluster_api_provider_yan.Prelude.{some}
use cluster_api_provider_yan.Prelude.{String, ◌≡◌, ◌≢◌, ◌⊎◌, ◌&&◌, refl, true, List, [], ◌∷◌, arith}
use cluster_api_provider_yan.Prelude.Int.{pos}
use cluster_api_provider_yan.Prelude.Lists.{length}
use cluster_api_provider_yan.Exec.{Result, err, is_ok}
use cluster_api_provider_yan.Exec.Errors.{Error, library}
use cluster_api_provider_yan.Api.Cluster.{YandexCluster}
use cluster_api_provider_yan.Api.Machine.{YandexMachine, machine_finalizer}
use cluster_api_provider_yan.Cloud.Messages.{Instance}
use cluster_api_provider_yan.Cloud.Recording.{Recorded, recording, patch_cluster_call}
use cluster_api_provider_yan.Scope.Cluster.{ClusterState}
use cluster_api_provider_yan.Scope.Machine.{
  MachineState, get_instance_id, get_provider_id, parse_provider_id, is_not_found,
}
use cluster_api_provider_yan.LoadBalancer.Service.{
  reconcile, delete, describe, is_active, add_target, remove_target,
}
use cluster_api_provider_yan.LoadBalancer.Alb.Creation.{
  reconcile_alb_service, reconcile_alb_target_group, reconcile_alb_backend_group, reconcile_alb,
  reconcile_existing,
}
use cluster_api_provider_yan.LoadBalancer.Alb.Reads.{
  get_internal_address, get_internal_port, is_active_alb, describe_alb, is_address_registered_alb,
}
use cluster_api_provider_yan.LoadBalancer.Alb.Deletion.{
  delete_alb_service, delete_application_load_balancer, delete_alb_backend_group,
  delete_alb_target_group,
}
use cluster_api_provider_yan.LoadBalancer.Alb.Targets.{add_target_alb, remove_target_alb}
use cluster_api_provider_yan.Compute.Service.{create_compute_instance}
use cluster_api_provider_yan.Prelude.Text.{trim_prefix}
use cluster_api_provider_yan.Compute.Service.Deregistration.{due_deregistration}
use cluster_api_provider_yan.Controllers.ClusterReconciler
use cluster_api_provider_yan.Controllers.ClusterReconciler.{has_finalizer}
use cluster_api_provider_yan.Controllers.ClusterReconciler.Endpoint.{
  Settled, reconcile-Settled, reconcile_keeps_endpoint,
}
use cluster_api_provider_yan.Controllers.ClusterReconciler.Finalizer.{Gone}
use cluster_api_provider_yan.Controllers.MachineReconciler
use cluster_api_provider_yan.Controllers.MachineReconciler.Finalizer.{reconcile_delete_deleted}
use cluster_api_provider_yan.Controllers.MachineReconciler.Progress.{
  Progress, reconcile-Progress, serviced,
}
use cluster_api_provider_yan.Controllers.Outcome.{Outcome}
use cluster_api_provider_yan.Compute.Service
use cluster_api_provider_yan.Controllers.Closing.{
  machine_body, machine_run, machine_write, run_scope_closes_machine, cluster_body, cluster_run,
  cluster_write, run_scope_closes, run_scope_gives_up,
}
use cluster_api_provider_yan.Tests.Fixtures.{
  World, client, cluster, created, empty_world, full_world, keys, kube, libs, machine_scope,
  with_instance, yandex_cluster,
}

abbrev unset : ClusterState World
unset = record { world = full_world; yandex_cluster = yandex_cluster }

-- Another endpoint than the load balancer's.
abbrev endpoint_set : ClusterState World
endpoint_set = record unset {
  yandex_cluster = record yandex_cluster {
    spec = record (yandex_cluster.spec) {
      control_plane_endpoint = record { host = "10.0.0.7"; port = pos 6443 };
    };
  };
}

reconcile_keeps_endpoint_example :
    (ClusterReconciler.reconcile libs client cluster endpoint_set).1.yandex_cluster.spec
    ≡ endpoint_set.yandex_cluster.spec
reconcile_keeps_endpoint_example = reconcile_keeps_endpoint libs client cluster endpoint_set refl

abbrev settled : ClusterState World
settled = (ClusterReconciler.reconcile libs client cluster unset).1

reconcile-Settled_example : Settled libs client cluster unset settled
unfolding ClusterReconciler.reconcile reconcile reconcile_alb_service reconcile_alb_target_group
    reconcile_alb_backend_group reconcile_alb reconcile_existing get_internal_address
    get_internal_port is_active is_active_alb describe describe_alb
    ClusterReconciler.settle_endpoint
reconcile-Settled_example = reconcile-Settled libs client cluster unset settled refl

abbrev leaving : ClusterState World
leaving = record { world = empty_world; yandex_cluster = record yandex_cluster { deleted = true } }

no_more :
    (xs : List String) → length xs ≡ 0 → xs ≢ "yandexcluster.infrastructure.cluster.x-k8s.io" ∷ []
no_more xs none_left e = absurd (ground arith)

abbrev left_behind : YandexCluster
left_behind = leaving.yandex_cluster

abbrev run_result : Result Outcome × Recorded World
run_result = cluster_run libs kube client cluster left_behind empty_world []

abbrev body_result : Result Outcome × ClusterState (Recorded World)
body_result = cluster_body libs kube client cluster left_behind empty_world []

run_scope_closes_example :
    (run_result.1.calls
      ≡ patch_cluster_call body_result.1.yandex_cluster ∷ body_result.1.world.calls)
    × (is_ok run_result.0 ≡ (
        is_ok body_result.0
        && is_ok (cluster_write libs kube client cluster left_behind empty_world [])))
run_scope_closes_example = run_scope_closes libs kube client cluster left_behind empty_world []

abbrev given_up : YandexCluster
given_up = record left_behind { finalizers = [] }

run_scope_gives_up_example :
    (has_finalizer libs (recording client) (record {
      world = record { world = empty_world; calls = [] };
      yandex_cluster = left_behind;
    })
      ≡ true)
    × (w' : Recorded World) × Gone libs
        (recording client)
        cluster
        (record { cluster = cluster; yandex_cluster = left_behind })
        (record { world = empty_world; calls = [] })
        w'
unfolding ClusterReconciler.run_scope ClusterReconciler.reconcile_delete delete delete_alb_service
    delete_application_load_balancer delete_alb_backend_group delete_alb_target_group
run_scope_gives_up_example =
    run_scope_gives_up libs kube client cluster left_behind empty_world [] given_up [] refl refl
      (no_more _ refl)

abbrev starting_machine : MachineState World
starting_machine = record { world = with_instance; yandex_machine = created }

reconcile-Progress_example : Progress libs keys kube client machine_scope starting_machine
unfolding Service.reconcile get_instance_id parse_provider_id trim_prefix get_provider_id
    Service.get_instance_address Service.register_control_plane add_target add_target_alb
    is_address_registered_alb
reconcile-Progress_example =
    reconcile-Progress libs keys kube client machine_scope starting_machine
      (serviced libs keys kube client machine_scope starting_machine).1 "cp-0-bootstrap" refl refl
      refl

-- A machine whose instance is gone.
abbrev orphan : YandexMachine
orphan = record created { finalizers = machine_finalizer ∷ [] }

abbrev lost : Result Instance
lost = err (library 5)

other_than_machine : (xs : List String) → length xs ≡ 0 → xs ≢ machine_finalizer ∷ []
other_than_machine xs none_left e = absurd (ground arith)

reconcile_delete_deleted_example :
    (get_instance_id orphan ≡ "")
    ⊎ ((e : Error) × (lost ≡ err e)
        × (is_not_found libs e ≡ true)
        × (is_ok (due_deregistration libs keys kube client machine_scope orphan full_world).0
            ≡ true))
unfolding MachineReconciler.reconcile_delete get_instance_id parse_provider_id trim_prefix
    get_provider_id Service.delete Service.deregister_control_plane remove_target remove_target_alb
    is_address_registered_alb
reconcile_delete_deleted_example =
    reconcile_delete_deleted libs keys kube client machine_scope orphan full_world [] lost
      full_world refl (other_than_machine _ refl)

abbrev machine_after : MachineState (Recorded World)
machine_after = (machine_body libs keys kube client machine_scope orphan full_world []).1

run_scope_closes_machine_example :
    ((machine_run libs keys kube client machine_scope orphan full_world []).1.calls
      ≡ patch_machine_call machine_after.yandex_machine ∷ machine_after.world.calls)
    × (is_ok (machine_run libs keys kube client machine_scope orphan full_world []).0 ≡ (
        is_ok (machine_body libs keys kube client machine_scope orphan full_world []).0
        && is_ok (machine_write libs keys kube client machine_scope orphan full_world [])))
run_scope_closes_machine_example =
    run_scope_closes_machine libs keys kube client machine_scope orphan full_world []

abbrev new_machine : MachineState World
new_machine = record { world = full_world; yandex_machine = yandex_machine }

abbrev just_created : World
just_created = record full_world {
  instance = some (record { status = "PROVISIONING"; interfaces = "" ∷ [] });
}
