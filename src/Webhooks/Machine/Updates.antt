-- ===== src/Webhooks/Machine/Updates.antt =====
-- Which updates of a YandexMachine are admitted.
use cluster_api_provider_yan.Prelude.{◌≡◌, ◌↔◌, ◌⊎◌, ◌∙◌, ap, Option, some, [], ◌∷◌, arith}
use cluster_api_provider_yan.Exec.{Result, ok}
use cluster_api_provider_yan.Api.Machine.{YandexMachine}
use cluster_api_provider_yan.Webhooks.Verdicts.{Verdict, admitted, invalid, spec_immutable}
use cluster_api_provider_yan.Webhooks.Unstructured.{Json, Fields, as_object, object, entry, delete}
use cluster_api_provider_yan.Webhooks.Unstructured.Encoding.{spec_fields}
use cluster_api_provider_yan.Webhooks.Unstructured.Encoding.Faithful.{spec_fields_iff}
use cluster_api_provider_yan.Scope.Machine.ProviderId.{without_provider_id}
use cluster_api_provider_yan.Webhooks.Machine.{
  validate_update, on_spec, after_assertion, specs_verdict,
}

-- What is documented of `ToUnstructured`: the specification of a machine is an entry of its form,
-- with the fields that the tags name.
abbrev pub EncodesMachines :
    {Object : Type 0} → (Object → Result Fields) → (YandexMachine → Object) → Type 0
EncodesMachines to_unstructured machine_object =
    (ym : YandexMachine)
    → (fields : Fields) × (to_unstructured (machine_object ym) ≡ ok fields)
      × (entry "spec" fields ≡ some (object (spec_fields ym.spec)))

pub on_spec_found :
    (fields spec : Fields) (next : Fields → Result Verdict)
    → entry "spec" fields ≡ some (object spec)
    → on_spec fields next ≡ next spec
on_spec_found entries spec next h = ap (λ (o : Option Json). after_assertion (as_object o) next) h

module _ {Object : Type 0} (to_unstructured : Object → Result Fields)
    (machine_object : YandexMachine → Object) (E : EncodesMachines to_unstructured machine_object)
    (old ym : YandexMachine) where
  compared :
      validate_update to_unstructured machine_object (machine_object old) ym
      ≡ ok (
          specs_verdict ym.name
            (delete "providerID" (spec_fields old.spec))
            (delete "providerID" (spec_fields ym.spec)))
  unfolding validate_update
  compared =
      let (new_fields, new_form, new_spec) = E ym in
      let (old_fields, old_form, old_spec) = E old in
      rw (new_form, old_form)
        (on_spec_found new_fields _ _ new_spec ∙ on_spec_found old_fields _ _ old_spec)

  -- Where machines are converted as documented, an update of a machine is admitted exactly if the
  -- specifications differ in the provider ID at most; otherwise the only error says that the
  -- specification cannot be modified, and the webhook never panics.
  pub validate_update_machine_iff :
      ((validate_update to_unstructured machine_object (machine_object old) ym ≡ ok admitted)
        ↔ (without_provider_id old.spec ≡ without_provider_id ym.spec))
      × ((validate_update to_unstructured machine_object (machine_object old) ym ≡ ok admitted)
          ⊎ (validate_update to_unstructured machine_object (machine_object old) ym
              ≡ ok (invalid ym.name (spec_immutable ∷ []))))
  validate_update_machine_iff = rw compared ground (arith, spec_fields_iff old.spec ym.spec)
