-- ===== src/Cloud/Recording.antt =====
-- A specification device: clients that note every call that changes something, in front of the
-- calls noted before, and pass it on. What a run did is then a list that theorems speak of.
use cluster_api_provider_yan.Prelude.{String, List, ◌∷◌}
use cluster_api_provider_yan.Exec.{Exec}
use cluster_api_provider_yan.Api.Cluster.{YandexCluster}
use cluster_api_provider_yan.Api.Machine.{YandexMachine}
use cluster_api_provider_yan.Cloud.{Client, Balancer}
use cluster_api_provider_yan.Cloud.Requests.{
  CreateBackendGroupRequest, CreateInstanceRequest, CreateLoadBalancerRequest,
  CreateTargetGroupRequest, TargetsRequest,
}
use cluster_api_provider_yan.Kube.{Kube}

pub data Call : Type 0 where
  create_instance : CreateInstanceRequest → Call
  delete_instance : String → Call
  add_target_call remove_target_call : TargetsRequest → Call
  create_target_group : CreateTargetGroupRequest → Call
  delete_target_group : String → Call
  create_backend_group : CreateBackendGroupRequest → Call
  delete_backend_group : String → Call
  create_balancer : CreateLoadBalancerRequest → Call
  delete_balancer : String → Call
  register_target deregister_target : String → String → Call
  patch_cluster_call : YandexCluster → Call
  patch_machine_call : YandexMachine → Call

pub record Recorded (W : Type 0) : Type 0 where
  pub world : W
  pub calls : List Call

module _ {W A : Type 0} where
  -- A call that only reads.
  abbrev pub reading : Exec W A → Exec (Recorded W) A
  reading m s = let (r, w) = m s.world in (r, record s { world = w })

  -- A call that is noted, whatever its result.
  abbrev pub noting : Call → Exec W A → Exec (Recorded W) A
  noting call m s = let (r, w) = m s.world in (r, record { world = w; calls = call ∷ s.calls })

module _ {W : Type 0} where
  abbrev pub recording : Client W → Client (Recorded W)
  recording client = record {
    compute_get = λ id. reading (client.compute_get id);
    compute_create = λ req. noting (create_instance req) (client.compute_create req);
    compute_delete = λ id. noting (delete_instance id) (client.compute_delete id);
    alb_add_target = λ req. noting (add_target_call req) (client.alb_add_target req);
    alb_remove_target = λ req. noting (remove_target_call req) (client.alb_remove_target req);
    alb_target_group_create =
        λ req. noting (create_target_group req) (client.alb_target_group_create req);
    alb_target_group_delete =
        λ id. noting (delete_target_group id) (client.alb_target_group_delete id);
    alb_target_group_get_by_name =
        λ folder name. reading (client.alb_target_group_get_by_name folder name);
    alb_backend_group_create =
        λ req. noting (create_backend_group req) (client.alb_backend_group_create req);
    alb_backend_group_delete =
        λ id. noting (delete_backend_group id) (client.alb_backend_group_delete id);
    alb_backend_group_get_by_name =
        λ folder name. reading (client.alb_backend_group_get_by_name folder name);
    alb_create = λ req. noting (create_balancer req) (client.alb_create req);
    alb_delete = λ id. noting (delete_balancer id) (client.alb_delete id);
    alb_get_by_name = λ folder name. reading (client.alb_get_by_name folder name);
  }

  abbrev pub recording_balancer : Balancer W → Balancer (Recorded W)
  recording_balancer b = record {
    describe = reading b.describe;
    is_active = reading b.is_active;
    add_target = λ addr subnet. noting (register_target addr subnet) (b.add_target addr subnet);
    remove_target =
        λ addr subnet. noting (deregister_target addr subnet) (b.remove_target addr subnet);
  }

  abbrev pub recording_kube : Kube W → Kube (Recorded W)
  recording_kube kube = record {
    get_yandex_cluster = λ key. reading (kube.get_yandex_cluster key);
    get_yandex_machine = λ key. reading (kube.get_yandex_machine key);
    get_owner_cluster = λ yc. reading (kube.get_owner_cluster yc);
    get_owner_machine = λ ym. reading (kube.get_owner_machine ym);
    get_cluster_from_metadata = λ m. reading (kube.get_cluster_from_metadata m);
    get_secret = λ key. reading (kube.get_secret key);
    list_machines = λ namespace name. reading (kube.list_machines namespace name);
    new_cluster_helper = λ yc. reading (kube.new_cluster_helper yc);
    new_machine_helper = λ ym. reading (kube.new_machine_helper ym);
    patch_cluster =
        λ before after. noting (patch_cluster_call after) (kube.patch_cluster before after);
    patch_machine =
        λ before after. noting (patch_machine_call after) (kube.patch_machine before after);
  }
