-- ===== src/Tests/Names.antt =====
-- Names, and the requests of machines.
use Prim.Native.String.{len}
use mathlib.Core.List.{Memᴰ}
use cluster_api_provider_yan.Prelude.{◌<>◌, ◌<◌, ◌≡◌, ◌↔◌, refl, true, List, [], ◌∷◌, arith}
use cluster_api_provider_yan.Prelude.Text.{all_chars}
use cluster_api_provider_yan.Kube.{Machine, ObjectKey}
use cluster_api_provider_yan.Scope.Cluster.{ClusterScope, generate_name, is_name_char, name}
use cluster_api_provider_yan.Scope.Cluster.Names.{
  IsDigest, generate_name_bounds, generate_name_injective,
}
use cluster_api_provider_yan.Scope.Machine.{
  get_instance_id, get_provider_id, provider_id_prefix, set_provider_id,
}
use cluster_api_provider_yan.Scope.Machine.ProviderId.{get_instance_id-set_provider_id}
use cluster_api_provider_yan.Controllers.MachineReconciler.{machine_requests}
use cluster_api_provider_yan.Controllers.MachineReconciler.Requests.{Names, machine_requests_iff}
use cluster_api_provider_yan.Tests.Fixtures.{
  cluster, yandex_cluster, digest_back, digest_front, libs, machine, scope, yandex_machine,
}

is_digest : IsDigest (libs.sha256_hex (name scope))
unfolding is_name_char
is_digest = record {
  front = digest_front;
  back = digest_back;
  parts = refl;
  front_length = refl;
  front_digits = refl;
}

generate_name_bounds_example :
    (len (generate_name libs scope) < 64)
    × (all_chars is_name_char (generate_name libs scope) ≡ true)
generate_name_bounds_example = generate_name_bounds libs scope is_digest

-- Another object of a cluster with the same name.
abbrev second_scope : ClusterScope
second_scope = record {
  cluster = cluster;
  yandex_cluster = record yandex_cluster { name = "again" };
}

generate_name_injective_example : name scope ≡ name second_scope
unfolding generate_name is_name_char
generate_name_injective_example =
    generate_name_injective libs scope second_scope refl refl (ground arith) (ground arith) refl

get_instance_id-set_provider_id_example :
    (get_instance_id (set_provider_id "epd1" yandex_machine) ≡ "epd1")
    × (get_provider_id (set_provider_id "epd1" yandex_machine) ≡ provider_id_prefix <> "epd1")
    × ((set_provider_id "epd1" yandex_machine).status ≡ yandex_machine.status)
get_instance_id-set_provider_id_example = get_instance_id-set_provider_id "epd1" yandex_machine

-- The second machine names no infrastructure object.
abbrev machines : List Machine
machines = machine ∷ record machine { infrastructure_ref_name = "" } ∷ []

abbrev key : ObjectKey
key = record { namespace = "default"; name = "cp-0" }

machine_requests_iff_example : Memᴰ key (machine_requests machines) ↔ Names key machines
machine_requests_iff_example = machine_requests_iff key machines
