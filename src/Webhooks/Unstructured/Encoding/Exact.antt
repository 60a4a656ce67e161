-- ===== src/Webhooks/Unstructured/Encoding/Exact.antt =====
-- Two specifications have equal JSON forms, with their provider IDs, exactly if they are equal.
use cluster_api_provider_yan.Prelude.{
  String, ◌≡◌, ◌↔◌, refl, eq_iff, Bool, true, false, Option, none, some, ◌&&◌, arith,
}
use cluster_api_provider_yan.Api.Machine.{YandexMachineSpec, Resources, NetworkInterface}
use cluster_api_provider_yan.Prelude.{ℕ, ◌==◌, List, suc, eqb}
use cluster_api_provider_yan.Webhooks.Unstructured.{
  Json, text, array, object, Fields, field, deep_equal, includes, entry, size,
}
use cluster_api_provider_yan.Webhooks.Unstructured.Encoding.{
  disk_json, interface_items, resources_fields, optional, spec_fields,
}
use cluster_api_provider_yan.Webhooks.Unstructured.Encoding.Faithful.{
  SameJson, spec_form, spec_form_iff, disk_json_iff, resources_fields_iff, interfaces_iff,
}

-- No other field is named as the provider ID.
includes_provider :
    (z p : Option String) (d r n v : Json) (ys : Fields)
    → includes (spec_form z p d r n) (field "providerID" v ys) ≡ includes (spec_form z p d r n) ys
unfolding deep_equal
includes_provider none none d r n v ys = refl
includes_provider none (some p) d r n v ys = refl
includes_provider (some z) none d r n v ys = refl
includes_provider (some z) (some p) d r n v ys = refl

entry_provider :
    (z p : Option String) (d r n : Json) → entry "providerID" (spec_form z p d r n) ≡ none
entry_provider none none d r n = refl
entry_provider none (some p) d r n = refl
entry_provider (some z) none d r n = refl
entry_provider (some z) (some p) d r n = refl

includes_missing :
    (v : Json) (xs ys : Fields)
    → entry "providerID" ys ≡ none
    → includes (field "providerID" v xs) ys ≡ false
unfolding deep_equal
includes_missing v xs ys h = rw h refl

includes_field :
    (v v' : Json) (xs ys : Fields)
    → includes (field "providerID" v xs) (field "providerID" v' ys)
      ≡ (deep_equal v v' && includes xs (field "providerID" v' ys))
unfolding deep_equal
includes_field v v' xs ys = refl

-- A form that has as many fields as another one and its provider ID has a field that is not there.
apart :
    (z z' p p' : Option String) (d d' r r' n n' : Json)
    → (eqb (size (spec_form z p d r n)) (suc (size (spec_form z' p' d' r' n')))
        && includes (spec_form z p d r n) (spec_form z' p' d' r' n'))
      ≡ false
unfolding deep_equal
apart none z' none p' d d' r r' n n' = ground arith
apart none z' (some p) p' d d' r r' n n' = ground arith
apart (some z) z' none p' d d' r r' n n' = ground arith
apart (some z) z' (some p) p' d d' r r' n n' = ground arith

head_iff :
    (m n : ℕ) (b : Bool) (i i' : String)
    → ((eqb (suc m) (suc n) && (i == i' && b)) ≡ true)
      ↔ ((some i ≡ some i') × ((eqb m n && b) ≡ true))
head_iff m n b i i' = ground (arith, eq_iff i i')

missing_iff :
    (m n : ℕ) (b c : Bool) (i : String)
    → b ≡ false
    → ((eqb (suc m) n && b) ≡ true) ↔ ((some i ≡ none) × (c ≡ true))
missing_iff m n b c i h = ground arith

extra_iff : (b c : Bool) (i : String) → b ≡ false → (b ≡ true) ↔ ((none ≡ some i) × (c ≡ true))
extra_iff b c i h = ground arith

provider_form_iff :
    (i i' z z' p p' : Option String) (d d' r r' n n' : Json)
    → SameJson
        (object (optional "providerID" text i (spec_form z p d r n)))
        (object (optional "providerID" text i' (spec_form z' p' d' r' n')))
      ↔ ((i ≡ i') × SameJson (object (spec_form z p d r n)) (object (spec_form z' p' d' r' n')))
unfolding deep_equal
provider_form_iff none none z z' p p' d d' r r' n n' = (λ h. (refl, h), λ h. h.1)
provider_form_iff none (some i') z z' p p' d d' r r' n n' = extra_iff _ _ i' (
    rw (includes_provider z p d r n (text i') (spec_form z' p' d' r' n'))
      (apart z z' p p' d d' r r' n n'))
provider_form_iff (some i) none z z' p p' d d' r r' n n' =
    missing_iff (size (spec_form z p d r n)) (size (spec_form z' p' d' r' n')) _ _ i (
      includes_missing (text i) (spec_form z p d r n) (spec_form z' p' d' r' n')
        (entry_provider z' p' d' r' n'))
provider_form_iff (some i) (some i') z z' p p' d d' r r' n n' =
    rw (includes_field (text i) (text i') (spec_form z p d r n) (spec_form z' p' d' r' n'))
      (rw (includes_provider z p d r n (text i') (spec_form z' p' d' r' n')) (head_iff _ _ _ i i'))

exact_parts :
    (a b : YandexMachineSpec)
    → a.provider_id ≡ b.provider_id
    → a.zone_id ≡ b.zone_id
    → a.platform_id ≡ b.platform_id
    → a.boot_disk ≡ b.boot_disk
    → a.resources ≡ b.resources
    → a.network_interfaces ≡ b.network_interfaces
    → a ≡ b
exact_parts a b i z p d r n = ground arith

-- Two specifications have equal JSON forms exactly if they are the same.
pub exact_fields_iff :
    (a b : YandexMachineSpec) → SameJson (object (spec_fields a)) (object (spec_fields b)) ↔ (a ≡ b)
unfolding spec_fields
exact_fields_iff a b =
    let resources_form = λ (r : Resources). object (resources_fields r) in
    let interfaces_form = λ (ns : List NetworkInterface). array (interface_items ns) in
    ground (
      arith,
      provider_form_iff a.provider_id b.provider_id a.zone_id b.zone_id a.platform_id b.platform_id
          (disk_json a.boot_disk) (disk_json b.boot_disk) (resources_form a.resources)
          (resources_form b.resources) (interfaces_form a.network_interfaces)
          (interfaces_form b.network_interfaces),
      spec_form_iff a.zone_id b.zone_id a.platform_id b.platform_id (disk_json a.boot_disk)
          (disk_json b.boot_disk) (resources_form a.resources) (resources_form b.resources)
          (interfaces_form a.network_interfaces) (interfaces_form b.network_interfaces),
      disk_json_iff a.boot_disk b.boot_disk,
      resources_fields_iff a.resources.memory b.resources.memory a.resources.cores b.resources.cores
          a.resources.core_fraction b.resources.core_fraction a.resources.gpus b.resources.gpus,
      interfaces_iff a.network_interfaces b.network_interfaces,
    )
