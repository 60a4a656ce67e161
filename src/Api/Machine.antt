-- ===== src/Api/Machine.antt =====
-- api/v1alpha1/yandexmachine_types.go and types.go: `YandexMachine`, its specification and status.
use cluster_api_provider_yan.Prelude.{String, Bool, Option, List}
use cluster_api_provider_yan.Prelude.Int.{ℤ}
use cluster_api_provider_yan.Prelude.Lists.{Map}
use cluster_api_provider_yan.Api.Conditions.{Conditions}

abbrev pub machine_finalizer : String
machine_finalizer = "yandexmachine.infrastructure.cluster.x-k8s.io"

-- `InstanceStatus` is a string type.
abbrev pub InstanceStatus : Type 0
InstanceStatus = String

abbrev pub status_provisioning : InstanceStatus
status_provisioning = "PROVISIONING"

abbrev pub status_running : InstanceStatus
status_running = "RUNNING"

abbrev pub status_starting : InstanceStatus
status_starting = "STARTING"

abbrev pub status_deleting : InstanceStatus
status_deleting = "DELETING"

abbrev pub status_deleted : InstanceStatus
status_deleted = "DELETED"

pub record NetworkInterface : Type 0 where
  pub subnet_id : String
  pub has_public_ip : Option Bool

-- `resource.Quantity`, as the text it is written with.
abbrev pub Quantity : Type 0
Quantity = String

pub record Resources : Type 0 where
  pub memory : Quantity
  pub cores : ℤ  -- int64
  pub core_fraction : Option ℤ
  pub gpus : Option ℤ

pub record Disk : Type 0 where
  pub type_id : Option String
  pub size : Quantity
  pub image_id : String

pub record YandexMachineSpec : Type 0 where
  pub provider_id : Option String
  pub zone_id : Option String
  pub platform_id : Option String
  pub boot_disk : Option Disk
  pub resources : Resources
  pub network_interfaces : List NetworkInterface

-- `corev1.NodeAddress`
pub data NodeAddressType : Type 0 where
  node_internal_ip : NodeAddressType
  other_address : String → NodeAddressType

pub record NodeAddress : Type 0 where
  pub type : NodeAddressType
  pub address : String

-- The failure message keeps the state that it is formatted from.
pub data FailureMessage : Type 0 where
  unexpected_state : InstanceStatus → FailureMessage

pub data FailureReason : Type 0 where
  update_machine_error : FailureReason
  other_reason : String → FailureReason

pub record YandexMachineStatus : Type 0 where
  pub ready : Bool
  pub addresses : List NodeAddress
  pub instance_status : Option InstanceStatus
  pub failure_reason : Option FailureReason
  pub failure_message : Option FailureMessage
  pub conditions : Conditions

-- Of the object's metadata the program reads these fields.
pub record YandexMachine : Type 0 where
  pub name : String
  pub namespace : String
  pub labels : Map String
  pub finalizers : List String
  pub deleted : Bool  -- `!DeletionTimestamp.IsZero()`
  pub spec : YandexMachineSpec
  pub status : YandexMachineStatus
