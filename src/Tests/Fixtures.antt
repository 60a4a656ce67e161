-- ===== src/Tests/Fixtures.antt =====
-- A small cloud, the libraries and an API server, for the runs of the tests.
use cluster_api_provider_yan.Prelude.{
  ℕ, String, ◌==◌, ◌&&◌, Bool, true, false, not, Option, none, some, List, [], ◌∷◌, ◌++◌,
  if◌then◌else◌,
}
use cluster_api_provider_yan.Prelude.Int.{pos, eqz}
use cluster_api_provider_yan.Prelude.Lists.{any}
use cluster_api_provider_yan.Exec.{Result, ok, err}
use cluster_api_provider_yan.Exec.Errors.{Error, library}
use cluster_api_provider_yan.Api.Cluster.{YandexCluster, cluster_finalizer}
use cluster_api_provider_yan.Api.Machine.{YandexMachine, node_internal_ip}
use cluster_api_provider_yan.Cloud.{Client}
use cluster_api_provider_yan.Cloud.Messages.{
  active, deleting, BackendGroup, Instance, LoadBalancer, Target, TargetGroup, internal_ipv4,
}
use cluster_api_provider_yan.Kube.{Cluster, Machine, Kube, Libraries}
use cluster_api_provider_yan.Scope.Cluster.{ClusterScope}
use cluster_api_provider_yan.Scope.Labels.{CapiLabels}
use cluster_api_provider_yan.LoadBalancer.Alb.Deletion.{is_going}
use cluster_api_provider_yan.LoadBalancer.Service.{balancer}
use cluster_api_provider_yan.Scope.Machine.{MachineScope}

-- At most one object of each kind.
pub record World : Type 0 where
  pub group : Option TargetGroup
  pub backend : Option BackendGroup
  pub balancer : Option LoadBalancer
  pub instance : Option Instance

abbrev pub same_address : Option String → Option String → Bool
same_address none none = true
same_address (some a) (some b) = a == b
same_address _ _ = false

abbrev pub same_target : Target → Target → Bool
same_target s t = same_address s.address_type t.address_type && s.subnet_id == t.subnet_id

abbrev pub without : Target → List Target → List Target
without t [] = []
without t (x ∷ xs) = let rest = without t xs in if same_target t x then rest else x ∷ rest

abbrev pub adding : List Target → Option TargetGroup → Option TargetGroup
adding new none = none
adding new (some tg) = some (record tg { targets = tg.targets ++ new })

abbrev pub removing : List Target → Option TargetGroup → Option TargetGroup
removing (t ∷ _) (some tg) = some (record tg { targets = without t tg.targets })
removing _ tg = tg

-- The deletion of a load balancer goes on after the call.
abbrev pub marked : Option LoadBalancer → Option LoadBalancer
marked none = none
marked (some lb) = some (record lb { status = deleting })

abbrev pub settle : Option LoadBalancer → Option LoadBalancer
settle none = none
settle (some lb) = if is_going lb.status then none else some lb

-- A pause, after which what is being deleted is gone.
abbrev pub pass : World → World
pass w = record w { balancer = settle w.balancer }

-- The code NOT_FOUND is 5.
abbrev pub found_or_5 : Option Instance → Result Instance
found_or_5 none = err (library 5)
found_or_5 (some vm) = ok vm

abbrev pub a_balancer : LoadBalancer
a_balancer = record {
  id = "alb1";
  status = active;
  listeners =
      record {
        endpoints =
            record { addresses = internal_ipv4 "10.0.0.9" ∷ []; ports = pos 8443 ∷ [] } ∷ [];
      }
      ∷ [];
}

abbrev pub client : Client World
client = record {
  compute_get = λ id w. (found_or_5 w.instance, w);
  compute_create = λ req w. (
    ok "epd1",
    record w { instance = some (record { status = "PROVISIONING"; interfaces = "" ∷ [] }) },
  );
  compute_delete = λ id w. (ok tt, record w { instance = none });
  alb_add_target = λ req w. (ok tt, record w { group = adding req.targets w.group });
  alb_remove_target = λ req w. (ok tt, record w { group = removing req.targets w.group });
  alb_target_group_create =
      λ req w. (ok "tg1", record w { group = some (record { id = "tg1"; targets = [] }) });
  alb_target_group_delete = λ id w. (ok tt, record w { group = none });
  alb_target_group_get_by_name = λ folder name w. (ok w.group, w);
  alb_backend_group_create =
      λ req w. (ok "bg1", record w { backend = some (record { id = "bg1" }) });
  alb_backend_group_delete = λ id w. (ok tt, record w { backend = none });
  alb_backend_group_get_by_name = λ folder name w. (ok w.backend, w);
  alb_create = λ req w. (ok "alb1", record w { balancer = some a_balancer });
  alb_delete = λ id w. (ok tt, record w { balancer = marked w.balancer });
  alb_get_by_name = λ folder name w. (ok w.balancer, w);
}

abbrev pub remove_string : List String → String → List String
remove_string [] f = []
remove_string (x ∷ xs) f = let rest = remove_string xs f in if x == f then rest else x ∷ rest

abbrev pub code_of : Error → ℕ × Bool
code_of (library n) = (n, true)
code_of _ = (2, false)

abbrev pub digest_front : String
digest_front = "2cf24dba5fb0a30e"

abbrev pub digest_back : String
digest_back = "26e83b2ac5b9e29e1b161e5c1fa7425e73043362938b9824"

abbrev pub libs : Libraries
libs = record {
  contains_finalizer = λ fs f. any (λ x. x == f) fs;
  add_finalizer = λ fs f. if any (λ x. x == f) fs then fs else fs ++ f ∷ [];
  remove_finalizer = remove_string;
  from_error = code_of;
  not_found_code = 5;
  is_api_not_found = λ e. false;
  is_cluster_paused = λ c yc. c.paused;
  is_machine_paused = λ c ym. c.paused;
  is_control_plane_machine =
      λ m. any (λ (l : String × String). l.0 == "cluster.x-k8s.io/control-plane") m.labels;
  is_endpoint_valid = λ e. not (e.host == "") && not (eqz e.port (pos 0));
  as_int64 = λ q. some (pos 4096);
  deleting_reason = "Deleting";
  deletion_failed_reason = "DeletionFailed";
  sha256_hex = λ s. "2cf24dba5fb0a30e26e83b2ac5b9e29e1b161e5c1fa7425e73043362938b9824";
  md5_hex = λ s. "5d41402abc4b2a76b9719d911017c592";
}

abbrev pub keys : CapiLabels
keys = record {
  cluster_name = "cluster.x-k8s.io/cluster-name";
  control_plane_name = "cluster.x-k8s.io/control-plane-name";
  deployment_name = "cluster.x-k8s.io/deployment-name";
}

abbrev pub cluster : Cluster
cluster = record { name = "prod"; paused = false; infrastructure_ref = some "prod" }

-- The cluster object: with an address for its listener, without an endpoint.
abbrev pub yandex_cluster : YandexCluster
yandex_cluster = record {
  name = "prod";
  finalizers = cluster_finalizer ∷ [];
  deleted = false;
  spec = record {
    network = record { id = "net1" };
    control_plane_endpoint = record { host = ""; port = pos 0 };
    folder_id = "folder1";
    load_balancer = record {
      type = "ALB";
      name = "";
      listener = record {
        address = "10.0.0.9";
        port = pos 8443;
        internal = true;
        subnet = record { zone_id = "ru-central1-a"; id = "subnet1" };
      };
      backend_port = pos 8443;
      healthcheck = record { timeout_sec = pos 1; interval_sec = pos 3; threshold = pos 3 };
      security_groups = none;
    };
    labels = none;
  };
  status = record {
    ready = false;
    load_balancer = record { name = ""; listener_address = ""; listener_port = pos 0 };
    conditions = [];
  };
}

abbrev pub scope : ClusterScope
scope = record { cluster = cluster; yandex_cluster = yandex_cluster }

abbrev pub machine : Machine
machine = record {
  name = "cp-0";
  namespace = "default";
  labels = ("cluster.x-k8s.io/control-plane", "") ∷ [];
  data_secret_name = some "cp-0-bootstrap";
  infrastructure_ref_name = "cp-0";
}

-- A machine without an instance.
abbrev pub yandex_machine : YandexMachine
yandex_machine = record {
  name = "cp-0";
  namespace = "default";
  labels = [];
  finalizers = [];
  deleted = false;
  spec = record {
    provider_id = none;
    zone_id = some "ru-central1-a";
    platform_id = some "standard-v3";
    boot_disk = some (record { type_id = some "network-ssd"; size = "40Gi"; image_id = "img1" });
    resources = record { memory = "4Gi"; cores = pos 2; core_fraction = none; gpus = none };
    network_interfaces = record { subnet_id = "subnet1"; has_public_ip = none } ∷ [];
  };
  status = record {
    ready = false;
    addresses = [];
    instance_status = none;
    failure_reason = none;
    failure_message = none;
    conditions = [];
  };
}

abbrev pub kube : Kube World
kube = record {
  get_yandex_cluster = λ key w. (ok yandex_cluster, w);
  get_yandex_machine = λ key w. (ok yandex_machine, w);
  get_owner_cluster = λ yc w. (ok (some cluster), w);
  get_owner_machine = λ ym w. (ok (some machine), w);
  get_cluster_from_metadata = λ m w. (ok cluster, w);
  get_secret = λ key w. (ok (("value", "#cloud-config") ∷ []), w);
  list_machines = λ namespace name w. (ok (machine ∷ []), w);
  new_cluster_helper = λ yc w. (ok tt, w);
  new_machine_helper = λ ym w. (ok tt, w);
  patch_cluster = λ before after w. (ok tt, w);
  patch_machine = λ before after w. (ok tt, w);
}

abbrev pub machine_scope : MachineScope World
machine_scope = record {
  cluster = scope;
  load_balancer = balancer libs client scope;
  machine = machine;
  original = yandex_machine;
}

abbrev pub empty_world : World
empty_world = record { group = none; backend = none; balancer = none; instance = none }

-- Everything but an instance.
abbrev pub full_world : World
full_world = record {
  group = some (record { id = "tg1"; targets = [] });
  backend = some (record { id = "bg1" });
  balancer = some a_balancer;
  instance = none;
}

-- The machine with its instance, which runs.
abbrev pub created : YandexMachine
created = record yandex_machine {
  spec = record (yandex_machine.spec) { provider_id = some "yandex://epd1" };
  status = record (yandex_machine.status) {
    addresses = record { type = node_internal_ip; address = "10.0.0.2" } ∷ [];
  };
}

abbrev pub running : Instance
running = record { status = "RUNNING"; interfaces = "10.0.0.2" ∷ [] }

abbrev pub with_instance : World
with_instance = record full_world { instance = some running }
