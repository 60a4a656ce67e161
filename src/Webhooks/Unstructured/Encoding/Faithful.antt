-- ===== src/Webhooks/Unstructured/Encoding/Faithful.antt =====
-- Two specifications have equal JSON forms exactly if they are the same.
use cluster_api_provider_yan.Prelude.{
  String, ◌≡◌, ◌↔◌, refl, eq_iff, Bool, true, false, Option, none, some, List, [], ◌∷◌, arith,
}
use cluster_api_provider_yan.Prelude.Int.{ℤ, eqz_iff}
use cluster_api_provider_yan.Api.Machine.{Disk, NetworkInterface, Resources, YandexMachineSpec}
use cluster_api_provider_yan.Scope.Machine.ProviderId.{without_provider_id}
use cluster_api_provider_yan.Webhooks.DeepEqual.{same_bool_iff}
use cluster_api_provider_yan.Webhooks.Unstructured.{
  Json, text, array, object, Items, no_items, item, Fields, no_fields, field, deep_equal,
  same_items, delete,
}
use cluster_api_provider_yan.Webhooks.Unstructured.Encoding.{
  disk_fields, disk_json, interface_fields, interface_items, resources_fields, optional,
  spec_fields,
}

abbrev pub SameJson : Json → Json → Type 0
SameJson x y = deep_equal x y ≡ true

-- A disk, by its fields.
abbrev disk : Option String → String → String → Disk
disk type_id size image_id = record { type_id = type_id; size = size; image_id = image_id }

disk_fields_iff :
    (t t' : Option String) (s s' i i' : String)
    → SameJson (object (disk_fields (disk t s i))) (object (disk_fields (disk t' s' i')))
      ↔ (disk t s i ≡ disk t' s' i')
unfolding deep_equal disk_fields
disk_fields_iff none none s s' i i' = ground (arith, eq_iff s s', eq_iff i i')
disk_fields_iff none (some t') s s' i i' = ground (arith, eq_iff s s', eq_iff i i')
disk_fields_iff (some t) none s s' i i' = ground (arith, eq_iff s s', eq_iff i i')
disk_fields_iff (some t) (some t') s s' i i' = ground (arith, eq_iff s s', eq_iff i i', eq_iff t t')

abbrev pub resources : String → ℤ → Option ℤ → Option ℤ → Resources
resources memory cores core_fraction gpus = record {
  memory = memory;
  cores = cores;
  core_fraction = core_fraction;
  gpus = gpus;
}

pub resources_fields_iff :
    (m m' : String) (c c' : ℤ) (f f' g g' : Option ℤ)
    → SameJson
        (object (resources_fields (resources m c f g)))
        (object (resources_fields (resources m' c' f' g')))
      ↔ (resources m c f g ≡ resources m' c' f' g')
unfolding deep_equal resources_fields
resources_fields_iff m m' c c' none none g g' = grind (arith, eq_iff, eqz_iff)
resources_fields_iff m m' c c' none (some f') g g' = grind (arith, eq_iff, eqz_iff)
resources_fields_iff m m' c c' (some f) none g g' = grind (arith, eq_iff, eqz_iff)
resources_fields_iff m m' c c' (some f) (some f') g g' = grind (arith, eq_iff, eqz_iff)

pub disk_json_iff : (d d' : Option Disk) → SameJson (disk_json d) (disk_json d') ↔ (d ≡ d')
unfolding disk_json deep_equal
disk_json_iff none none = ground arith
disk_json_iff none (some d') = ground arith
disk_json_iff (some d) none = ground arith
disk_json_iff (some d) (some d') =
    ground (arith, disk_fields_iff d.type_id d'.type_id d.size d'.size d.image_id d'.image_id)

abbrev interface : String → Option Bool → NetworkInterface
interface subnet_id has_public_ip = record { subnet_id = subnet_id; has_public_ip = has_public_ip }

interface_fields_iff :
    (s s' : String) (p p' : Option Bool)
    → SameJson
        (object (interface_fields (interface s p)))
        (object (interface_fields (interface s' p')))
      ↔ (interface s p ≡ interface s' p')
unfolding deep_equal interface_fields
interface_fields_iff s s' none p' = grind (arith, eq_iff, same_bool_iff)
interface_fields_iff s s' (some p) none = grind (arith, eq_iff, same_bool_iff)
interface_fields_iff s s' (some p) (some p') = grind (arith, eq_iff, same_bool_iff)

items_iff :
    (x y : Json) (xs ys : Items)
    → (same_items (item x xs) (item y ys) ≡ true) ↔ (SameJson x y × (same_items xs ys ≡ true))
unfolding deep_equal
items_iff x y xs ys = ground arith

no_items_iff :
    (x : Json) (xs : Items)
    → (same_items no_items (item x xs) ≡ false) × (same_items (item x xs) no_items ≡ false)
unfolding deep_equal
no_items_iff x xs = (refl, refl)

same_no_items : same_items no_items no_items ≡ true
unfolding deep_equal
same_no_items = refl

interface_items_iff :
    (ns ns' : List NetworkInterface)
    → (same_items (interface_items ns) (interface_items ns') ≡ true) ↔ (ns ≡ ns')
unfolding interface_items
interface_items_iff [] [] = ground (arith, same_no_items)
interface_items_iff [] (n' ∷ ns') =
    ground (arith, no_items_iff (object (interface_fields n')) (interface_items ns'))
interface_items_iff (n ∷ ns) [] =
    ground (arith, no_items_iff (object (interface_fields n)) (interface_items ns))
interface_items_iff (n ∷ ns) (n' ∷ ns') = ground (
  arith,
  items_iff (object (interface_fields n)) (object (interface_fields n')) (interface_items ns)
      (interface_items ns'),
  interface_fields_iff n.subnet_id n'.subnet_id n.has_public_ip n'.has_public_ip,
  interface_items_iff ns ns',
)

-- Its JSON form, over those of its parts.
abbrev pub spec_form : Option String → Option String → Json → Json → Json → Fields
spec_form zone_id platform_id boot_disk resources interfaces = optional "zoneID" text zone_id (
    optional "platformID" text platform_id (
      field "bootDisk" boot_disk
        (field "resources" resources (field "networkInterfaces" interfaces no_fields))))

pub spec_form_iff :
    (z z' p p' : Option String) (d d' r r' n n' : Json)
    → SameJson (object (spec_form z p d r n)) (object (spec_form z' p' d' r' n'))
      ↔ ((z ≡ z') × (p ≡ p') × SameJson d d' × SameJson r r' × SameJson n n')
unfolding deep_equal
spec_form_iff none none p p' d d' r r' n n' = grind (arith, eq_iff)
spec_form_iff none (some z') p p' d d' r r' n n' = grind (arith, eq_iff)
spec_form_iff (some z) none p p' d d' r r' n n' = grind (arith, eq_iff)
spec_form_iff (some z) (some z') p p' d d' r r' n n' = grind (arith, eq_iff)

-- `delete` takes the provider ID out, whether it is set or not, and nothing else.
delete_provider_id :
    (i z p : Option String) (d r n : Json)
    → delete "providerID" (optional "providerID" text i (spec_form z p d r n)) ≡ spec_form z p d r n
delete_provider_id none none none d r n = refl
delete_provider_id none none (some p) d r n = refl
delete_provider_id none (some z) none d r n = refl
delete_provider_id none (some z) (some p) d r n = refl
delete_provider_id (some i) none none d r n = refl
delete_provider_id (some i) none (some p) d r n = refl
delete_provider_id (some i) (some z) none d r n = refl
delete_provider_id (some i) (some z) (some p) d r n = refl

spec_parts :
    (a b : YandexMachineSpec)
    → a.zone_id ≡ b.zone_id
    → a.platform_id ≡ b.platform_id
    → a.boot_disk ≡ b.boot_disk
    → a.resources ≡ b.resources
    → a.network_interfaces ≡ b.network_interfaces
    → without_provider_id a ≡ without_provider_id b
spec_parts a b z p d r n = rw (z, p, d, r, n) refl

pub interfaces_iff :
    (ns ns' : List NetworkInterface)
    → SameJson (array (interface_items ns)) (array (interface_items ns')) ↔ (ns ≡ ns')
unfolding deep_equal
interfaces_iff ns ns' = interface_items_iff ns ns'

-- Two specifications have equal JSON forms without their provider IDs exactly if they differ in
-- the provider ID at most.
pub spec_fields_iff :
    (a b : YandexMachineSpec)
    → SameJson
        (object (delete "providerID" (spec_fields a)))
        (object (delete "providerID" (spec_fields b)))
      ↔ (without_provider_id a ≡ without_provider_id b)
unfolding spec_fields
spec_fields_iff a b =
    let resources_form = λ (r : Resources). object (resources_fields r) in
    let interfaces_form = λ (ns : List NetworkInterface). array (interface_items ns) in
    rw
      (
        delete_provider_id a.provider_id a.zone_id a.platform_id (disk_json a.boot_disk)
            (resources_form a.resources) (interfaces_form a.network_interfaces),
        delete_provider_id b.provider_id b.zone_id b.platform_id (disk_json b.boot_disk)
            (resources_form b.resources) (interfaces_form b.network_interfaces),
      )
      ground
      (
        arith,
        spec_form_iff a.zone_id b.zone_id a.platform_id b.platform_id (disk_json a.boot_disk)
            (disk_json b.boot_disk) (resources_form a.resources) (resources_form b.resources)
            (interfaces_form a.network_interfaces) (interfaces_form b.network_interfaces),
        disk_json_iff a.boot_disk b.boot_disk,
        resources_fields_iff a.resources.memory b.resources.memory a.resources.cores
            b.resources.cores a.resources.core_fraction b.resources.core_fraction a.resources.gpus
            b.resources.gpus,
        interfaces_iff a.network_interfaces b.network_interfaces,
      )
