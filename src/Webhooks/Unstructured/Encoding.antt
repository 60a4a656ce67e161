-- ===== src/Webhooks/Unstructured/Encoding.antt =====
-- api/v1alpha1/yandexmachine_types.go: the JSON form of a machine's specification that the tags of
-- its fields give. A nil slice is not told apart from an empty one.
pub mod Faithful
pub mod Exact
use cluster_api_provider_yan.Prelude.{String, Bool, Option, none, some, List, [], ◌∷◌}
use cluster_api_provider_yan.Prelude.Int.{ℤ}
use cluster_api_provider_yan.Api.Machine.{Disk, NetworkInterface, Resources, YandexMachineSpec}
use cluster_api_provider_yan.Webhooks.Unstructured.{
  Json, null, boolean, integer, text, array, object, Items, no_items, item, Fields, no_fields,
  field,
}

-- A field with `omitempty`
abbrev pub optional : {A : Type 0} → String → (A → Json) → Option A → Fields → Fields
optional key encode none rest = rest
optional key encode (some a) rest = field key (encode a) rest

unfoldable pub interface_fields : NetworkInterface → Fields
interface_fields n =
    field "subnetID" (text n.subnet_id) (optional "hasPublicIP" boolean n.has_public_ip no_fields)

unfoldable pub interface_items : List NetworkInterface → Items
interface_items [] = no_items
interface_items (n ∷ ns) = item (object (interface_fields n)) (interface_items ns)

unfoldable pub resources_fields : Resources → Fields
resources_fields r = field "memory" (text r.memory) (
    field "cores" (integer r.cores)
      (optional "coreFraction" integer r.core_fraction (optional "gpus" integer r.gpus no_fields)))

unfoldable pub disk_fields : Disk → Fields
disk_fields d =
    optional "typeID" text d.type_id
      (field "size" (text d.size) (field "imageID" (text d.image_id) no_fields))

unfoldable pub disk_json : Option Disk → Json
disk_json none = null
disk_json (some d) = object (disk_fields d)

unfoldable pub spec_fields : YandexMachineSpec → Fields
spec_fields spec = optional "providerID" text spec.provider_id (
    optional "zoneID" text spec.zone_id (
      optional "platformID" text spec.platform_id (
        field "bootDisk" (disk_json spec.boot_disk) (
          field "resources" (object (resources_fields spec.resources)) (
            field "networkInterfaces" (array (interface_items spec.network_interfaces))
              no_fields)))))
