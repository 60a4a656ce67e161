-- ===== src/LoadBalancer/Alb/Creation/Calls.antt =====
-- What `reconcileALBService` asks the cloud to create.
use cluster_api_provider_yan.Prelude.{
  String, ◌≡◌, ap, Option, none, some, List, [], ◌∷◌, ◌++◌, arith, true, false, ◌==◌, ◌<>◌,
  if◌then◌else◌,
}
use cluster_api_provider_yan.Exec.{Result, ok}
use cluster_api_provider_yan.Cloud.{Client}
use cluster_api_provider_yan.Cloud.Messages.{LoadBalancer, BackendGroup, TargetGroup}
use cluster_api_provider_yan.Cloud.Recording.{
  Call, Recorded, recording, create_balancer, create_backend_group, create_target_group,
}
use cluster_api_provider_yan.Cloud.Requests.{
  CreateTargetGroupRequest, CreateBackendGroupRequest, CreateLoadBalancerRequest, round_robin,
}
use cluster_api_provider_yan.Prelude.Int.{scale, to_int64}
use cluster_api_provider_yan.Kube.{Cluster, Libraries}
use cluster_api_provider_yan.Api.Cluster.{YandexCluster}
use cluster_api_provider_yan.Scope.Cluster.{ClusterScope, get_folder_id, get_lb_name}
use cluster_api_provider_yan.LoadBalancer.Builders.BackendGroup
use cluster_api_provider_yan.LoadBalancer.Builders.Balancer
use cluster_api_provider_yan.LoadBalancer.Alb.Reads.{get_internal_address, get_internal_port}
use cluster_api_provider_yan.LoadBalancer.Alb.Creation.{
  is_unrecoverable, reconcile_alb_target_group, reconcile_alb_backend_group, reconcile_alb,
  reconcile_alb_service, reconcile_existing,
}

-- The ID that a step goes on with: of what was found, or else of what was created.
abbrev pub Obtains : {A W : Type 0} → (A → String) → Option A → Result String × W → String → Type 0
Obtains id none created out = created.0 ≡ ok out
Obtains id (some a) created out = id a ≡ out

abbrev pub left : {A W : Type 0} → Option A → Result String × W → W → W
left none created found = created.1
left (some a) created found = found

-- The calls that are due where an object is missing.
abbrev pub if_missing : {A : Type 0} → Option A → List Call → List Call
if_missing none calls = calls
if_missing (some _) calls = []

-- The checks of a load balancer that exists call nothing.
pub reconcile_existing_keeps :
    {W : Type 0} (c : ClusterScope) (lb : LoadBalancer) (w : W) → (reconcile_existing c lb w).1 ≡ w
unfolding reconcile_existing get_internal_address get_internal_port
reconcile_existing_keeps c lb w = ground arith

module _ {W : Type 0} (libs : Libraries) (client : Client W) (cluster : Cluster)
    (yc : YandexCluster) (w : W) (tg : Option TargetGroup) (bg : Option BackendGroup)
    (tg_id bg_id : String) where
  abbrev pub scope : ClusterScope
  scope = record { cluster = cluster; yandex_cluster = yc }

  -- What is asked for, field by field. Each part goes by the name of the load balancer, in the folder of the
  -- cluster, with its labels.
  abbrev pub wanted_target_group : CreateTargetGroupRequest
  wanted_target_group = record {
    folder_id = yc.spec.folder_id;
    name = get_lb_name libs scope;
    description = "k8s api " <> (cluster.name <> " target");
    labels = yc.spec.labels;
  }

  -- One stream backend over the target group, with one health check for its port.
  abbrev pub wanted_backend_group : CreateBackendGroupRequest
  wanted_backend_group =
      let lbs = yc.spec.load_balancer in
      record {
        folder_id = yc.spec.folder_id;
        name = get_lb_name libs scope;
        description = "k8s api " <> (cluster.name <> " backend");
        labels = yc.spec.labels;
        backends =
            record {
              name = get_lb_name libs scope;
              port = lbs.backend_port;
              target_group_ids = tg_id ∷ [];
              load_balancing_config = record { mode = round_robin; strict_locality = false };
              healthchecks =
                  record {
                    timeout = to_int64 (scale 1000000000 lbs.healthcheck.timeout_sec);
                    interval = to_int64 (scale 1000000000 lbs.healthcheck.interval_sec);
                    unhealthy_threshold = lbs.healthcheck.threshold;
                    healthy_threshold = lbs.healthcheck.threshold;
                  }
                  ∷ [];
            }
            ∷ [];
      }

  -- One listener, in one subnet, that hands on to the backend group.
  abbrev pub wanted_balancer : CreateLoadBalancerRequest
  wanted_balancer =
      let listener = yc.spec.load_balancer.listener in
      record {
        folder_id = yc.spec.folder_id;
        network_id = yc.spec.network.id;
        name = get_lb_name libs scope;
        description = "k8s api " <> (cluster.name <> " loadbalancer");
        locations =
            record { zone_id = listener.subnet.zone_id; subnet_id = listener.subnet.id } ∷ [];
        labels = yc.spec.labels;
        listener_specs =
            record {
              name = get_lb_name libs scope;
              endpoint_specs =
                  record {
                    ports = listener.port ∷ [];
                    address_specs =
                        record {
                          address = if listener.address == "" then none else some listener.address;
                          subnet_id = listener.subnet.id;
                        }
                        ∷ [];
                  }
                  ∷ [];
              backend_group_id = bg_id;
            }
            ∷ [];
        disable_logs = true;
      }

  abbrev pub tg_lookup : Result (Option TargetGroup) × W
  tg_lookup = client.alb_target_group_get_by_name (get_folder_id scope) (get_lb_name libs scope) w

  abbrev pub tg_request : Call
  tg_request = create_target_group wanted_target_group

  abbrev pub tg_created : Result String × W
  tg_created = client.alb_target_group_create wanted_target_group tg_lookup.1

  abbrev pub bg_lookup : Result (Option BackendGroup) × W
  bg_lookup =
      client.alb_backend_group_get_by_name (get_folder_id scope) (get_lb_name libs scope)
        (left tg tg_created tg_lookup.1)

  abbrev pub bg_created : Result String × W
  bg_created = client.alb_backend_group_create wanted_backend_group bg_lookup.1

  abbrev pub bg_request : Call
  bg_request = create_backend_group wanted_backend_group

  abbrev pub lb_lookup : Result (Option LoadBalancer) × W
  lb_lookup =
      client.alb_get_by_name (get_folder_id scope) (get_lb_name libs scope)
        (left bg bg_created bg_lookup.1)

  abbrev pub lb_request : Call
  lb_request = create_balancer wanted_balancer

  tg_step :
      (calls : List Call)
      → tg_lookup.0 ≡ ok tg
      → Obtains (λ t. t.id) tg tg_created tg_id
      → reconcile_alb_target_group libs
          (recording client)
          scope
          (record { world = w; calls = calls })
        ≡ (
          ok tg_id,
          record {
            world = left tg tg_created tg_lookup.1;
            calls = if_missing tg (tg_request ∷ []) ++ calls;
          },
        )
  unfolding reconcile_alb_target_group
  tg_step calls h o = ground arith

  bg_step :
      (calls : List Call)
      → bg_lookup.0 ≡ ok bg
      → Obtains (λ b. b.id) bg bg_created bg_id
      → reconcile_alb_backend_group libs
          (recording client)
          scope
          tg_id
          (record { world = left tg tg_created tg_lookup.1; calls = calls })
        ≡ (
          ok bg_id,
          record {
            world = left bg bg_created bg_lookup.1;
            calls = if_missing bg (bg_request ∷ []) ++ calls;
          },
        )
  unfolding reconcile_alb_backend_group BackendGroup.create_health_checks BackendGroup.seconds
  bg_step calls h o = ground arith

  lb_step :
      (calls : List Call) (lb : Option LoadBalancer)
      → lb_lookup.0 ≡ ok lb
      → (reconcile_alb libs (recording client) cluster bg_id (record {
        world = record { world = left bg bg_created bg_lookup.1; calls = calls };
        yandex_cluster = yc;
      })).1.world.calls
        ≡ if_missing lb (if is_unrecoverable libs scope then [] else lb_request ∷ []) ++ calls
  unfolding reconcile_alb Balancer.build Balancer.create_listener_spec
  lb_step calls none h = ground arith
  lb_step calls (some lb) h =
      let s : Recorded W = record { world = lb_lookup.1; calls = calls } in
      rw h (ap (λ (t : Recorded W). t.calls) (reconcile_existing_keeps scope lb s))

  -- The calls made before, with what is due in front, the latest call first.
  abbrev pub due : Option LoadBalancer → List Call → List Call
  due lb calls =
      if_missing lb (if is_unrecoverable libs scope then [] else lb_request ∷ [])
      ++ (if_missing bg (bg_request ∷ []) ++ (if_missing tg (tg_request ∷ []) ++ calls))

  -- `reconcileALBService` creates what its lookups do not find, with the fields that are written out,
  -- and nothing else: the target group, then the backend group over the target group that was found or created, then the load balancer
  -- over the backend group that was found or created; but no load balancer where the endpoint of
  -- the cluster is set and the listener's address was left to the cloud. Each lookup is taken to
  -- succeed, and so are the creations of the two groups.
  pub reconcile_alb_service_calls :
      (calls : List Call) (lb : Option LoadBalancer)
      → tg_lookup.0 ≡ ok tg
      → Obtains (λ t. t.id) tg tg_created tg_id
      → bg_lookup.0 ≡ ok bg
      → Obtains (λ b. b.id) bg bg_created bg_id
      → lb_lookup.0 ≡ ok lb
      → (reconcile_alb_service libs (recording client) cluster (record {
        world = record { world = w; calls = calls };
        yandex_cluster = yc;
      })).1.world.calls
        ≡ due lb calls
  unfolding reconcile_alb_service
  reconcile_alb_service_calls calls lb ht it hb ib hl =
      rw (tg_step calls ht it, bg_step _ hb ib) (lb_step _ lb hl)
