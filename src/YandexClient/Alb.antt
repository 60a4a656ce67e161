-- ===== src/YandexClient/Alb.antt =====
-- internal/pkg/client/alb.go: the requests for application load balancers, for their target groups
-- and for their backend groups.
use cluster_api_provider_yan.Prelude.{String, ℕ, Option, none, some, List, [], ◌∷◌}
use cluster_api_provider_yan.Exec.{Result, ok, err, Exec, pure, lift, ◌>>=◌, ◌>>◌}
use cluster_api_provider_yan.Exec.Errors.{
  no_target_group_metadata, no_backend_group_metadata, no_load_balancer_metadata,
}
use cluster_api_provider_yan.Cloud.Messages.{LoadBalancer, TargetGroup, BackendGroup}
use cluster_api_provider_yan.Cloud.Requests.{
  CreateTargetGroupRequest, CreateBackendGroupRequest, CreateLoadBalancerRequest, TargetsRequest,
}
use cluster_api_provider_yan.Metrics.{
  YcMetrics, Monitored, observed, in_world, service_label_alb_target_group,
  service_label_alb_backend_group, service_label_alb,
}
use cluster_api_provider_yan.YandexClient.Sdk.{
  Sdk, ListRequest, Metadata, target_group_metadata, backend_group_metadata, load_balancer_metadata,
}

-- `meta.(*alb.Create…Metadata)`, whose `ok` is tested
abbrev pub target_group_id_of : Metadata → Result String
target_group_id_of (target_group_metadata id) = ok id
target_group_id_of _ = err no_target_group_metadata

abbrev pub backend_group_id_of : Metadata → Result String
backend_group_id_of (backend_group_metadata id) = ok id
backend_group_id_of _ = err no_backend_group_metadata

abbrev pub load_balancer_id_of : Metadata → Result String
load_balancer_id_of (load_balancer_metadata id) = ok id
load_balancer_id_of _ = err no_load_balancer_metadata

-- The first of what a lookup by name lists, `nil` where it lists nothing.
abbrev pub first_listed : {A : Type 0} → List A → Option A
first_listed [] = none
first_listed (x ∷ _) = some x

module _ {W Op Wrapped : Type 0} (sdk : Sdk W Op Wrapped) where
  abbrev pub by_name : String → String → ListRequest
  by_name folder name = record {
    folder_id = folder;
    filter = sdk.create_resolver_filter "name" name;
    page_size = sdk.default_resolver_page_size;
  }

  abbrev pub get_meta : Op → Exec W Metadata
  get_meta op = do wo ← sdk.wrap_operation op; lift (sdk.metadata wo)

  -- `ALBCreate` after the request: the ID is given only when the operation is done.
  abbrev pub await_created : Op → Exec W String
  await_created op = do
    ci ← sdk.wrap_operation op
    meta ← lift (sdk.metadata ci)
    id ← lift (load_balancer_id_of meta)
    sdk.wait ci
    sdk.response ci
    pure id

module _ {W M Op Wrapped : Type 0} (om : YcMetrics M) (now : W → ℕ) (sdk : Sdk W Op Wrapped) where
  unfoldable pub alb_add_target : TargetsRequest → Exec (Monitored W M) Op
  alb_add_target req =
      observed om now service_label_alb_target_group (sdk.target_group_add_targets req)

  unfoldable pub alb_remove_target : TargetsRequest → Exec (Monitored W M) Op
  alb_remove_target req =
      observed om now service_label_alb_target_group (sdk.target_group_remove_targets req)

  unfoldable pub alb_get_target_group : String → Exec (Monitored W M) TargetGroup
  alb_get_target_group id = observed om now service_label_alb_target_group (sdk.target_group_get id)

  unfoldable pub alb_target_group_create : CreateTargetGroupRequest → Exec (Monitored W M) String
  alb_target_group_create req = do
    op ← observed om now service_label_alb_target_group (sdk.target_group_create req)
    meta ← in_world (get_meta sdk op)
    lift (target_group_id_of meta)

  unfoldable pub alb_target_group_delete : String → Exec (Monitored W M) (Unit {0})
  alb_target_group_delete id =
      observed om now service_label_alb_target_group (sdk.target_group_delete id) >> pure tt

  unfoldable pub alb_target_group_get : String → Exec (Monitored W M) TargetGroup
  alb_target_group_get id = observed om now service_label_alb_target_group (sdk.target_group_get id)

  unfoldable pub alb_target_group_get_by_name :
      String → String → Exec (Monitored W M) (Option TargetGroup)
  alb_target_group_get_by_name folder name = do
    found ←
        observed om now service_label_alb_target_group
          (sdk.target_group_list (by_name sdk folder name))
    pure (first_listed found)

  unfoldable pub alb_backend_group_create : CreateBackendGroupRequest → Exec (Monitored W M) String
  alb_backend_group_create req = do
    op ← observed om now service_label_alb_backend_group (sdk.backend_group_create req)
    meta ← in_world (get_meta sdk op)
    lift (backend_group_id_of meta)

  unfoldable pub alb_backend_group_delete : String → Exec (Monitored W M) (Unit {0})
  alb_backend_group_delete id =
      observed om now service_label_alb_backend_group (sdk.backend_group_delete id) >> pure tt

  unfoldable pub alb_backend_group_get : String → Exec (Monitored W M) BackendGroup
  alb_backend_group_get id =
      observed om now service_label_alb_backend_group (sdk.backend_group_get id)

  unfoldable pub alb_backend_group_get_by_name :
      String → String → Exec (Monitored W M) (Option BackendGroup)
  alb_backend_group_get_by_name folder name = do
    found ←
        observed om now service_label_alb_backend_group
          (sdk.backend_group_list (by_name sdk folder name))
    pure (first_listed found)

  unfoldable pub alb_create : CreateLoadBalancerRequest → Exec (Monitored W M) String
  alb_create req = do
    op ← observed om now service_label_alb (sdk.load_balancer_create req)
    in_world (await_created sdk op)

  unfoldable pub alb_delete : String → Exec (Monitored W M) (Unit {0})
  alb_delete id = observed om now service_label_alb (sdk.load_balancer_delete id) >> pure tt

  unfoldable pub alb_get : String → Exec (Monitored W M) LoadBalancer
  alb_get id = observed om now service_label_alb (sdk.load_balancer_get id)

  unfoldable pub alb_get_by_name : String → String → Exec (Monitored W M) (Option LoadBalancer)
  alb_get_by_name folder name = do
    found ← observed om now service_label_alb (sdk.load_balancer_list (by_name sdk folder name))
    pure (first_listed found)
