-- ===== src/Tests/Repeated.antt =====
-- Runs of `reconcile` of the machine controller over the small cloud, one after the other.
use cluster_api_provider_yan.Prelude.{String, ◌≡◌, ◌≢◌, refl, none, List, [], ◌∷◌, arith, eq_iff}
use cluster_api_provider_yan.Cloud.Recording.{Recorded, recording, recording_kube}
use cluster_api_provider_yan.Scope.Machine.{
  MachineState, get_instance_id, get_provider_id, parse_provider_id, get_bootstrap_data,
}
use cluster_api_provider_yan.Prelude.Lists.{lookup}
use cluster_api_provider_yan.Prelude.Text.{trim_prefix}
use cluster_api_provider_yan.Scope.InstanceRequest.{get_instance_req}
use cluster_api_provider_yan.Compute.Service.{create_compute_instance}
use cluster_api_provider_yan.Compute.Service.Deregistration.{recorded_scope}
use cluster_api_provider_yan.Compute.Service.Counting.{creations}
use cluster_api_provider_yan.Controllers.MachineReconciler.Progress.{patched}
use cluster_api_provider_yan.Controllers.MachineReconciler.Repeated.{
  reconcile_after_each, reconcile_creates_once_machine, reconcile_run,
}
use cluster_api_provider_yan.Tests.Fixtures.{
  World, client, full_world, keys, kube, libs, machine_scope, yandex_machine, pass,
}

abbrev start : MachineState (Recorded World)
start = record {
  world = record { world = full_world; calls = [] };
  yandex_machine = yandex_machine;
}

abbrev written_start : MachineState (Recorded World)
written_start =
    (patched libs keys (recording_kube kube) (recording client) (recorded_scope machine_scope)
      start).1

abbrev after : Recorded World
after =
    (create_compute_instance libs keys (recording_kube kube) (recording client)
      (recorded_scope machine_scope) written_start.yandex_machine written_start.world).1

-- The instance is lost in the end.
abbrev changes : List (World → World)
changes = pass ∷ (λ w. w) ∷ (λ w. record w { instance = none }) ∷ pass ∷ []

abbrev last : MachineState (Recorded World)
last =
    reconcile_after_each libs keys kube client machine_scope changes
      (reconcile_run libs keys kube client machine_scope start)

abbrev id : String
id = "epd1"

named : id ≢ ""
named e = absurd (ground (arith, eq_iff "epd1" ""))

reconcile_creates_once_machine_example :
    (get_instance_id last.yandex_machine ≡ "epd1") × (creations last.world.calls ≡ 1)
unfolding get_instance_id get_provider_id parse_provider_id trim_prefix create_compute_instance
    get_instance_req get_bootstrap_data lookup
reconcile_creates_once_machine_example =
    reconcile_creates_once_machine libs keys kube client machine_scope start "cp-0-bootstrap" id
      after changes refl refl refl named refl
