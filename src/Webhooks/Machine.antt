-- ===== src/Webhooks/Machine.antt =====
-- api/v1alpha1/yandexmachine_webhook.go: the validation of a YandexMachine.
pub mod Updates
use cluster_api_provider_yan.Prelude.{String, [], ◌∷◌, if◌then◌else◌}
use cluster_api_provider_yan.Exec.{Result, ok, err, panic}
use cluster_api_provider_yan.Exec.Errors.{Error}
use cluster_api_provider_yan.Api.Machine.{YandexMachine}
use cluster_api_provider_yan.Webhooks.Verdicts.{
  FieldError, Verdict, admitted, invalid, new_unconverted, old_unconverted, spec_immutable,
}
use cluster_api_provider_yan.Webhooks.Unstructured.{
  Fields, object, entry, delete, as_object, deep_equal,
}

abbrev pub validate_create : YandexMachine → Verdict
validate_create ym = admitted

abbrev pub validate_delete : YandexMachine → Verdict
validate_delete ym = admitted

-- A conversion that fails is an answer of the webhook.
abbrev pub on_converted :
    String → (Error → FieldError) → Result Fields → (Fields → Result Verdict) → Result Verdict
on_converted name reason (ok fields) next = next fields
on_converted name reason (err e) next = ok (invalid name (reason e ∷ []))
on_converted name reason panic next = panic

abbrev pub after_assertion : Result Fields → (Fields → Result Verdict) → Result Verdict
after_assertion (ok fields) next = next fields
after_assertion (err e) next = err e
after_assertion panic next = panic

-- `m["spec"].(map[string]interface{})`
abbrev pub on_spec : Fields → (Fields → Result Verdict) → Result Verdict
on_spec fields next = after_assertion (as_object (entry "spec" fields)) next

-- `reflect.DeepEqual` of the old and the new specification
abbrev pub specs_verdict : String → Fields → Fields → Verdict
specs_verdict name old_spec new_spec =
    if deep_equal (object old_spec) (object new_spec)
    then admitted
    else invalid name (spec_immutable ∷ [])

-- `DefaultUnstructuredConverter.ToUnstructured` is `to_unstructured`, over the objects of package
-- runtime, of which a pointer to a machine is one.
module _ {Object : Type 0} (to_unstructured : Object → Result Fields)
    (machine_object : YandexMachine → Object) where
  unfoldable pub validate_update : Object → YandexMachine → Result Verdict
  validate_update old ym =
      on_converted ym.name new_unconverted (to_unstructured (machine_object ym)) (λ new_machine.
        on_converted ym.name old_unconverted (to_unstructured old) (λ old_machine.
          on_spec new_machine (λ new_spec. on_spec old_machine (λ old_spec. ok (
            specs_verdict ym.name (delete "providerID" old_spec) (delete "providerID" new_spec))))))
