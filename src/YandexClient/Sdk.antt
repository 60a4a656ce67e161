-- ===== src/YandexClient/Sdk.antt =====
-- What the client uses of the Yandex Cloud SDK (package go-sdk), over an unknown state of the world,
-- and internal/pkg/client/client.go, which builds and closes it. `Op` is an operation as an API call
-- returns it, `Wrapped` what `WrapOperation` makes of it.
use cluster_api_provider_yan.Prelude.{String, ℕ, List}
use cluster_api_provider_yan.Exec.{Result, Exec, lift, ◌>>=◌}
use cluster_api_provider_yan.Cloud.Messages.{Instance, LoadBalancer, TargetGroup, BackendGroup}
use cluster_api_provider_yan.Cloud.Requests.{
  CreateInstanceRequest, CreateTargetGroupRequest, CreateBackendGroupRequest,
  CreateLoadBalancerRequest, TargetsRequest,
}

-- The metadata messages that the client tests for, with the ID that each has, and the others.
pub data Metadata : Type 0 where
  instance_metadata target_group_metadata backend_group_metadata load_balancer_metadata :
      String → Metadata
  other_metadata : ℕ → Metadata

-- `ListTargetGroupsRequest`, `ListBackendGroupsRequest` and `ListLoadBalancersRequest`
pub record ListRequest : Type 0 where
  pub folder_id : String
  pub filter : String
  pub page_size : ℕ

pub record Sdk (W Op Wrapped : Type 0) : Type 0 where
  pub instance_get : String → Exec W Instance
  pub instance_create : CreateInstanceRequest → Exec W Op
  pub instance_delete : String → Exec W Op
  pub target_group_add_targets : TargetsRequest → Exec W Op
  pub target_group_remove_targets : TargetsRequest → Exec W Op
  pub target_group_get : String → Exec W TargetGroup
  pub target_group_create : CreateTargetGroupRequest → Exec W Op
  pub target_group_delete : String → Exec W Op
  pub target_group_list : ListRequest → Exec W (List TargetGroup)
  pub backend_group_get : String → Exec W BackendGroup
  pub backend_group_create : CreateBackendGroupRequest → Exec W Op
  pub backend_group_delete : String → Exec W Op
  pub backend_group_list : ListRequest → Exec W (List BackendGroup)
  pub load_balancer_get : String → Exec W LoadBalancer
  pub load_balancer_create : CreateLoadBalancerRequest → Exec W Op
  pub load_balancer_delete : String → Exec W Op
  pub load_balancer_list : ListRequest → Exec W (List LoadBalancer)
  -- `WrapOperation(op, nil)`
  pub wrap_operation : Op → Exec W Wrapped
  pub metadata : Wrapped → Result Metadata
  pub wait : Wrapped → Exec W (Unit {0})
  pub response : Wrapped → Exec W (Unit {0})  -- the response itself is dropped
  -- `sdkresolvers.CreateResolverFilter` and `sdkresolvers.DefaultResolverPageSize`
  pub create_resolver_filter : String → String → String
  pub default_resolver_page_size : ℕ
  pub shutdown : Exec W (Unit {0})

-- What `GetClient` calls: `json.Unmarshal` of a key, `ycsdk.ServiceAccountKey` and `ycsdk.Build`.
pub record SdkBuilder (W Op Wrapped Key Credentials : Type 0) : Type 0 where
  pub unmarshal_key : String → Result Key
  pub service_account_key : Key → Result Credentials
  pub build : Credentials → Exec W (Sdk W Op Wrapped)

module _ {W Op Wrapped Key Credentials : Type 0} where
  unfoldable pub get_client :
      SdkBuilder W Op Wrapped Key Credentials → String → Exec W (Sdk W Op Wrapped)
  get_client builder key = do
    sa_key ← lift (builder.unmarshal_key key)
    credentials ← lift (builder.service_account_key sa_key)
    builder.build credentials

module _ {W Op Wrapped : Type 0} where
  abbrev pub close : Sdk W Op Wrapped → Exec W (Unit {0})
  close sdk = sdk.shutdown
