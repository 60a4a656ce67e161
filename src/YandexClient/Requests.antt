-- ===== src/YandexClient/Requests.antt =====
-- Every operation of the client, as a request that is performed, and the status that its request comes back
-- with.
pub mod Counting
use cluster_api_provider_yan.Prelude.{
  String, ℕ, zero, suc, ◌+◌, ◌≡◌, ◌≢◌, refl, ◌∙◌, ◌==◌, List, [], ◌∷◌, Option, none, some, arith,
  if◌then◌else◌, ◌⊎◌, inl, inr, eq_iff, Bool, Bool-cases,
}
use cluster_api_provider_yan.Exec.{Result, ok, err, panic, Exec, lift, pure, ◌>>=◌}
use cluster_api_provider_yan.Cloud.Requests.{
  CreateInstanceRequest, CreateTargetGroupRequest, CreateBackendGroupRequest,
  CreateLoadBalancerRequest, TargetsRequest,
}
use cluster_api_provider_yan.Cloud.Interfaces.{Api}
use cluster_api_provider_yan.Metrics.{
  YcMetrics, Monitored, in_world, observed, controller_label_machine, status_failed, status_success,
  service_label_compute, service_label_alb_target_group, service_label_alb_backend_group,
  service_label_alb, service_label_nlb_target_group,
}
use cluster_api_provider_yan.Metrics.Counts.{
  Counts, CountsOne, CountsRequest, KeepsMetrics, outcome, observed-CountsRequest,
  bind-CountsRequest, bind-KeepsMetrics, in_world-KeepsMetrics, lift-KeepsMetrics,
}
use cluster_api_provider_yan.YandexClient.Sdk.{Sdk, Metadata}
use cluster_api_provider_yan.YandexClient.Compute
use cluster_api_provider_yan.YandexClient.Compute.{instance_id_of}
use cluster_api_provider_yan.YandexClient.Alb
use cluster_api_provider_yan.YandexClient.Alb.{
  target_group_id_of, backend_group_id_of, first_listed, by_name, get_meta, await_created,
}
use cluster_api_provider_yan.YandexClient.Nlb
use cluster_api_provider_yan.YandexClient.Nlb.{NlbSdk}

-- One constructor for each operation; `N` is a request for the targets of a network load balancer.
pub data Request (N : Type 0) : Type 0 where
  compute_get compute_delete : String → Request N
  compute_create : CreateInstanceRequest → Request N
  add_target remove_target : TargetsRequest → Request N
  get_target_group target_group_get target_group_delete : String → Request N
  target_group_create : CreateTargetGroupRequest → Request N
  target_group_get_by_name backend_group_get_by_name get_by_name : String → String → Request N
  backend_group_get backend_group_delete : String → Request N
  backend_group_create : CreateBackendGroupRequest → Request N
  create : CreateLoadBalancerRequest → Request N
  get delete : String → Request N
  nlb_add_target nlb_remove_target : N → Request N
  nlb_get_target_group : String → Request N

module _ {N : Type 0} where
  -- The label of the part of the API that a request goes to.
  unfoldable pub service_of : Request N → String
  service_of (compute_get _) = service_label_compute
  service_of (compute_delete _) = service_label_compute
  service_of (compute_create _) = service_label_compute
  service_of (backend_group_get_by_name _ _) = service_label_alb_backend_group
  service_of (backend_group_get _) = service_label_alb_backend_group
  service_of (backend_group_delete _) = service_label_alb_backend_group
  service_of (backend_group_create _) = service_label_alb_backend_group
  service_of (create _) = service_label_alb
  service_of (get _) = service_label_alb
  service_of (delete _) = service_label_alb
  service_of (get_by_name _ _) = service_label_alb
  service_of (nlb_add_target _) = service_label_nlb_target_group
  service_of (nlb_remove_target _) = service_label_nlb_target_group
  service_of (nlb_get_target_group _) = service_label_nlb_target_group
  service_of _ = service_label_alb_target_group

-- How the first request that an operation makes comes back: "success", "failed", or a panic.
module _ {W Op Wrapped N G : Type 0} (sdk : Sdk W Op Wrapped) (nlb : NlbSdk W Op N G) where
  unfoldable pub status_in : Request N → W → Option String
  status_in (compute_get id) w = outcome (sdk.instance_get id w).0
  status_in (compute_delete id) w = outcome (sdk.instance_delete id w).0
  status_in (compute_create req) w = outcome (sdk.instance_create req w).0
  status_in (add_target req) w = outcome (sdk.target_group_add_targets req w).0
  status_in (remove_target req) w = outcome (sdk.target_group_remove_targets req w).0
  status_in (get_target_group id) w = outcome (sdk.target_group_get id w).0
  status_in (target_group_get id) w = outcome (sdk.target_group_get id w).0
  status_in (target_group_delete id) w = outcome (sdk.target_group_delete id w).0
  status_in (target_group_create req) w = outcome (sdk.target_group_create req w).0
  status_in (target_group_get_by_name folder name) w =
      outcome (sdk.target_group_list (by_name sdk folder name) w).0
  status_in (backend_group_get_by_name folder name) w =
      outcome (sdk.backend_group_list (by_name sdk folder name) w).0
  status_in (get_by_name folder name) w =
      outcome (sdk.load_balancer_list (by_name sdk folder name) w).0
  status_in (backend_group_get id) w = outcome (sdk.backend_group_get id w).0
  status_in (backend_group_delete id) w = outcome (sdk.backend_group_delete id w).0
  status_in (backend_group_create req) w = outcome (sdk.backend_group_create req w).0
  status_in (create req) w = outcome (sdk.load_balancer_create req w).0
  status_in (get id) w = outcome (sdk.load_balancer_get id w).0
  status_in (delete id) w = outcome (sdk.load_balancer_delete id w).0
  status_in (nlb_add_target req) w = outcome (nlb.add_targets req w).0
  status_in (nlb_remove_target req) w = outcome (nlb.remove_targets req w).0
  status_in (nlb_get_target_group id) w = outcome (nlb.get id w).0

module _ {W Op N G : Type 0} (api : Api W Op N G) where
  -- The state that an operation of the client leaves, whatever it returns.
  unfoldable pub perform : Request N → W → W
  perform (compute_get id) s = (api.compute.compute_get id s).1
  perform (compute_delete id) s = (api.compute.compute_delete id s).1
  perform (compute_create req) s = (api.compute.compute_create req s).1
  perform (add_target req) s = (api.alb.alb_add_target req s).1
  perform (remove_target req) s = (api.alb.alb_remove_target req s).1
  perform (get_target_group id) s = (api.alb.alb_get_target_group id s).1
  perform (target_group_get id) s = (api.alb.alb_target_group_get id s).1
  perform (target_group_delete id) s = (api.alb.alb_target_group_delete id s).1
  perform (target_group_create req) s = (api.alb.alb_target_group_create req s).1
  perform (target_group_get_by_name folder name) s =
      (api.alb.alb_target_group_get_by_name folder name s).1
  perform (backend_group_get_by_name folder name) s =
      (api.alb.alb_backend_group_get_by_name folder name s).1
  perform (get_by_name folder name) s = (api.alb.alb_get_by_name folder name s).1
  perform (backend_group_get id) s = (api.alb.alb_backend_group_get id s).1
  perform (backend_group_delete id) s = (api.alb.alb_backend_group_delete id s).1
  perform (backend_group_create req) s = (api.alb.alb_backend_group_create req s).1
  perform (create req) s = (api.alb.alb_create req s).1
  perform (get id) s = (api.alb.alb_get id s).1
  perform (delete id) s = (api.alb.alb_delete id s).1
  perform (nlb_add_target req) s = (api.nlb.nlb_add_target req s).1
  perform (nlb_remove_target req) s = (api.nlb.nlb_remove_target req s).1
  perform (nlb_get_target_group id) s = (api.nlb.nlb_get_target_group id s).1
