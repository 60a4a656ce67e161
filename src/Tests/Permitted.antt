-- ===== src/Tests/Permitted.antt =====
-- A whole `Reconcile` of a machine that is being deleted and has an instance, and one of a cluster.
use cluster_api_provider_yan.Prelude.{String, true, some, refl, ◌∙◌, ◌≡◌, List, [], ◌∷◌}
use cluster_api_provider_yan.Api.Machine.{YandexMachine}
use cluster_api_provider_yan.Cloud.Quiet.{Only}
use cluster_api_provider_yan.Cloud.Recording.{
  Call, delete_instance, remove_target_call, patch_machine_call, Recorded, recording,
  recording_kube,
}
use cluster_api_provider_yan.Kube.{Kube, ObjectKey}
use cluster_api_provider_yan.Scope.Machine.{
  get_instance_id, get_provider_id, parse_provider_id, new_machine_scope,
}
use cluster_api_provider_yan.Scope.Machine.ProviderId.{get_instance_id_of_spec}
use cluster_api_provider_yan.Compute.Service.Quiet.{Permitted}
use cluster_api_provider_yan.Prelude.Text.{trim_prefix}
use cluster_api_provider_yan.Exec.{ok}
use cluster_api_provider_yan.Controllers.MachineReconciler.{
  reconcile_request, reconcile_delete, run_scope,
}
use cluster_api_provider_yan.Compute.Service.{delete, deregister_control_plane}
use cluster_api_provider_yan.LoadBalancer.Service.{remove_target}
use cluster_api_provider_yan.LoadBalancer.Alb.Targets.{remove_target_alb}
use cluster_api_provider_yan.LoadBalancer.Alb.Reads.{is_address_registered_alb}
use cluster_api_provider_yan.Scope.Cluster.{new_cluster_scope}
use cluster_api_provider_yan.Controllers.MachineReconciler.Quiet.Request.{
  reconcile_request-Permitted,
}
use cluster_api_provider_yan.Controllers.ClusterReconciler
use cluster_api_provider_yan.Controllers.ClusterReconciler.Quiet
use cluster_api_provider_yan.Controllers.ClusterReconciler.Quiet.Request.{
  reconcile_cluster-Permitted,
}
use cluster_api_provider_yan.Tests.Fixtures.{
  empty_world, yandex_cluster, World, client, created, keys, kube, libs, with_instance,
}
use cluster_api_provider_yan.Tests.Instances.{has_instance}

abbrev going : YandexMachine
going = record created { deleted = true }

abbrev api : Kube World
api = record kube { get_yandex_machine = λ key w. (ok going, w) }

abbrev key : ObjectKey
key = record { namespace = "default"; name = "cp-0" }

-- The target is registered.
abbrev start : Recorded World
start = record {
  world = record with_instance {
    group = some (record {
      id = "tg1";
      targets = record { address_type = some "10.0.0.2"; subnet_id = "subnet1" } ∷ [];
    });
  };
  calls = [];
}

reconcile_request-Permitted_example :
    Only
      (Permitted going true)
      []
      (reconcile_request libs keys (recording_kube api) (recording client) key start).1.calls
reconcile_request-Permitted_example =
    reconcile_request-Permitted libs keys api client key start going refl
      (λ e. has_instance (get_instance_id_of_spec created going refl ∙ e))

abbrev kinds : List Call → List String
kinds [] = []
kinds (delete_instance id ∷ cs) = let rest = kinds cs in id ∷ rest
kinds (remove_target_call req ∷ cs) = let rest = kinds cs in "remove" ∷ rest
kinds (patch_machine_call ym ∷ cs) = let rest = kinds cs in "patch" ∷ rest
kinds (_ ∷ cs) = let rest = kinds cs in "other" ∷ rest

-- The target is removed, the instance is deleted, and the machine is patched.
deletion_calls :
    kinds (reconcile_request libs keys (recording_kube api) (recording client) key start).1.calls
    ≡ "patch" ∷ "epd1" ∷ "remove" ∷ []
unfolding reconcile_request run_scope reconcile_delete delete get_instance_id get_provider_id
    parse_provider_id trim_prefix remove_target remove_target_alb is_address_registered_alb
    new_cluster_scope new_machine_scope deregister_control_plane
deletion_calls = refl

abbrev bare : Recorded World
bare = record { world = empty_world; calls = [] }

-- Everything is created.
reconcile_cluster-Permitted_example :
    Only
      (Quiet.Permitted yandex_cluster.spec yandex_cluster.deleted)
      []
      (ClusterReconciler.reconcile_request libs
        (recording_kube kube)
        (recording client)
        key
        bare).1.calls
reconcile_cluster-Permitted_example =
    reconcile_cluster-Permitted libs kube client key bare yandex_cluster refl
