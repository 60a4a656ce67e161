-- ===== src/Cloud/Requests.antt =====
-- The requests that the program sends (package go-genproto), with the fields that it sets.
use cluster_api_provider_yan.Prelude.{String, Bool, Option, List}
use cluster_api_provider_yan.Prelude.Int.{ℤ}
use cluster_api_provider_yan.Prelude.Lists.{Map}
use cluster_api_provider_yan.Cloud.Messages.{Target}

pub record CreateTargetGroupRequest : Type 0 where
  pub folder_id : String
  pub name : String
  pub description : String
  pub labels : Option (Map String)

-- `AddTargetsRequest` and `RemoveTargetsRequest`
pub record TargetsRequest : Type 0 where
  pub target_group_id : String
  pub targets : List Target

pub data LoadBalancingMode : Type 0 where
  round_robin : LoadBalancingMode

pub record LoadBalancingConfig : Type 0 where
  pub mode : LoadBalancingMode
  pub strict_locality : Bool

-- A stream health check. The durations are the nanoseconds handed to `durationpb.New`.
pub record HealthCheck : Type 0 where
  pub timeout : ℤ
  pub interval : ℤ
  pub unhealthy_threshold : ℤ
  pub healthy_threshold : ℤ

pub record StreamBackend : Type 0 where
  pub name : String
  pub port : ℤ
  pub target_group_ids : List String
  pub load_balancing_config : LoadBalancingConfig
  pub healthchecks : List HealthCheck

pub record CreateBackendGroupRequest : Type 0 where
  pub folder_id : String
  pub name : String
  pub description : String
  pub labels : Option (Map String)
  pub backends : List StreamBackend  -- of the stream backend group

pub record Location : Type 0 where
  pub zone_id : String
  pub subnet_id : String

-- An internal IPv4 address; without an address the cloud picks one of the subnet.
pub record InternalIpv4AddressSpec : Type 0 where
  pub address : Option String
  pub subnet_id : String

pub record EndpointSpec : Type 0 where
  pub ports : List ℤ
  pub address_specs : List InternalIpv4AddressSpec

-- A stream listener, whose handler forwards to the backend group.
pub record ListenerSpec : Type 0 where
  pub name : String
  pub endpoint_specs : List EndpointSpec
  pub backend_group_id : String

pub record CreateLoadBalancerRequest : Type 0 where
  pub folder_id : String
  pub network_id : String
  pub name : String
  pub description : String
  pub locations : List Location
  pub labels : Option (Map String)
  pub listener_specs : List ListenerSpec
  pub disable_logs : Bool

-- `PrimaryAddressSpec`: with a one-to-one NAT over IPv4, or empty.
pub data PrimaryAddressSpec : Type 0 where
  no_nat one_to_one_nat_ipv4 : PrimaryAddressSpec

pub record NetworkInterfaceSpec : Type 0 where
  pub subnet_id : String
  pub primary_v4_address_spec : PrimaryAddressSpec

-- A number that is not set is 0.
pub record ResourcesSpec : Type 0 where
  pub cores : ℤ
  pub memory : ℤ
  pub gpus : ℤ
  pub core_fraction : ℤ

pub record BootDiskSpec : Type 0 where
  pub auto_delete : Bool
  pub type_id : String
  pub size : ℤ
  pub image_id : String

pub record CreateInstanceRequest : Type 0 where
  pub folder_id : String
  pub name : String
  pub zone_id : String
  pub platform_id : String
  pub metadata : Map String
  pub labels : Map String
  pub hostname : String
  pub resources_spec : ResourcesSpec
  pub boot_disk_spec : BootDiskSpec
  pub network_interface_specs : List NetworkInterfaceSpec
