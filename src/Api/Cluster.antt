-- ===== src/Api/Cluster.antt =====
-- api/v1alpha1/yandexcluster_types.go: `YandexCluster`, its specification and its status.
use cluster_api_provider_yan.Prelude.{String, Bool, Option, List}
use cluster_api_provider_yan.Prelude.Int.{ℤ}
use cluster_api_provider_yan.Prelude.Lists.{Map}
use cluster_api_provider_yan.Api.Conditions.{Conditions}

abbrev pub cluster_finalizer : String
cluster_finalizer = "yandexcluster.infrastructure.cluster.x-k8s.io"

abbrev pub load_balancer_type_alb : String
load_balancer_type_alb = "ALB"

abbrev pub load_balancer_type_nlb : String
load_balancer_type_nlb = "NLB"

abbrev pub Labels : Type 0
Labels = Map String

-- `clusterv1.APIEndpoint`, whose fields the program reads and writes.
pub record ApiEndpoint : Type 0 where
  pub host : String
  pub port : ℤ  -- int32

pub record NetworkSpec : Type 0 where
  pub id : String

pub record SubnetSpec : Type 0 where
  pub zone_id : String
  pub id : String

pub record ListenerSpec : Type 0 where
  pub address : String
  pub port : ℤ  -- int32
  pub internal : Bool
  pub subnet : SubnetSpec

pub record HealthcheckSpec : Type 0 where
  pub timeout_sec : ℤ
  pub interval_sec : ℤ
  pub threshold : ℤ

pub record LoadBalancerSpec : Type 0 where
  pub type : String
  pub name : String
  pub listener : ListenerSpec
  pub backend_port : ℤ  -- int32
  pub healthcheck : HealthcheckSpec
  pub security_groups : Option (List String)  -- a nil slice is `none`

pub record YandexClusterSpec : Type 0 where
  pub network : NetworkSpec
  pub control_plane_endpoint : ApiEndpoint
  pub folder_id : String
  pub load_balancer : LoadBalancerSpec
  pub labels : Option Labels  -- `none` is the nil map

pub record LoadBalancerStatus : Type 0 where
  pub name : String
  pub listener_address : String
  pub listener_port : ℤ  -- int32

pub record YandexClusterStatus : Type 0 where
  pub ready : Bool
  pub load_balancer : LoadBalancerStatus
  pub conditions : Conditions

-- Of the object's metadata the program reads the name, the finalizers and the deletion mark.
pub record YandexCluster : Type 0 where
  pub name : String
  pub finalizers : List String
  pub deleted : Bool  -- `!DeletionTimestamp.IsZero()`
  pub spec : YandexClusterSpec
  pub status : YandexClusterStatus
