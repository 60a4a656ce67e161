-- ===== src/Webhooks/Unstructured.antt =====
-- The unstructured objects that the webhooks compare: `map[string]interface{}` and what it holds, with
-- `reflect.DeepEqual` of them. A map is a list of its entries, in any order.
pub mod Encoding
use cluster_api_provider_yan.Prelude.{
  ℕ, String, ◌==◌, Bool, true, false, ◌&&◌, Option, none, some, if◌then◌else◌, suc, eqb,
}
use cluster_api_provider_yan.Prelude.Int.{ℤ, eqz}
use cluster_api_provider_yan.Webhooks.DeepEqual.{same_bool}
use cluster_api_provider_yan.Exec.{Result, ok, panic}

mutual
  pub data Json : Type 0 where
    null : Json
    boolean : Bool → Json
    integer : ℤ → Json
    text : String → Json
    array : Items → Json
    object : Fields → Json

  pub data Items : Type 0 where
    no_items : Items
    item : Json → Items → Items

  pub data Fields : Type 0 where
    no_fields : Fields
    field : String → Json → Fields → Fields

-- `m[key]`, where a missing key is a nil interface.
abbrev pub entry : String → Fields → Option Json
entry key no_fields = none
entry key (field name value rest) =
    let others = entry key rest in if name == key then some value else others

-- `delete(m, key)`
abbrev pub delete : String → Fields → Fields
delete key no_fields = no_fields
delete key (field name value rest) =
    let others = delete key rest in if name == key then others else field name value others

-- `len(m)`
abbrev pub size : Fields → ℕ
size no_fields = 0
size (field _ _ rest) = suc (size rest)

-- Two maps are equal where they have as many keys, and the other one has each key of the one with a
-- value that is equal.
unfoldable mutual
  pub deep_equal : Json → Json → Bool
  deep_equal null null = true
  deep_equal (boolean a) (boolean b) = same_bool a b
  deep_equal (integer a) (integer b) = eqz a b
  deep_equal (text a) (text b) = a == b
  deep_equal (array xs) (array ys) = same_items xs ys
  deep_equal (object xs) (object ys) = eqb (size xs) (size ys) && includes xs ys
  deep_equal _ _ = false

  pub same_items : Items → Items → Bool
  same_items no_items no_items = true
  same_items (item x xs) (item y ys) = deep_equal x y && same_items xs ys
  same_items _ _ = false

  pub includes : Fields → Fields → Bool
  includes no_fields ys = true
  includes (field name value rest) ys =
      elim (entry name ys) [ none ↦ false | some w ↦ deep_equal value w ] && includes rest ys

-- `m[key].(map[string]interface{})`, which panics on anything else.
abbrev pub as_object : Option Json → Result Fields
as_object (some (object fields)) = ok fields
as_object _ = panic
