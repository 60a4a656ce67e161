-- ===== src/Webhooks/Template/Updates.antt =====
-- Which updates of a YandexMachineTemplate are admitted.
use cluster_api_provider_yan.Prelude.{◌≡◌, ◌↔◌, ◌⊎◌, ◌∙◌, Option, none, some, [], ◌∷◌, arith}
use cluster_api_provider_yan.Exec.{Result, ok}
use cluster_api_provider_yan.Api.Template.{YandexMachineTemplate}
use cluster_api_provider_yan.Webhooks.Verdicts.{admitted, invalid, spec_immutable}
use cluster_api_provider_yan.Webhooks.Unstructured.{
  Json, Fields, no_fields, field, object, entry, deep_equal,
}
use cluster_api_provider_yan.Webhooks.Unstructured.Encoding.{spec_fields, optional}
use cluster_api_provider_yan.Webhooks.Unstructured.Encoding.Faithful.{SameJson}
use cluster_api_provider_yan.Webhooks.Unstructured.Encoding.Exact.{exact_fields_iff}
use cluster_api_provider_yan.Webhooks.Machine.{specs_verdict}
use cluster_api_provider_yan.Webhooks.Machine.Updates.{on_spec_found}
use cluster_api_provider_yan.Webhooks.Template.{validate_update}

-- The form of the specification of a template, as the tags of its fields give it: the form of the
-- metadata, which may be left out, and that of the specification of the machines.
abbrev pub template_fields : Option Json → Fields → Fields
template_fields metadata spec =
    field "template"
      (object (optional "metadata" (λ j. j) metadata (field "spec" (object spec) no_fields)))
      no_fields

-- Metadata of equal forms, or left out in both.
abbrev pub SameForm : Option Json → Option Json → Type 0
SameForm none none = Unit {0}
SameForm (some x) (some y) = SameJson x y
SameForm _ _ = ⊥

template_fields_iff :
    (m m' : Option Json) (s s' : Fields)
    → SameJson (object (template_fields m s)) (object (template_fields m' s'))
      ↔ (SameForm m m' × SameJson (object s) (object s'))
unfolding deep_equal
template_fields_iff none none s s' = ground arith
template_fields_iff none (some x) s s' = ground arith
template_fields_iff (some x) none s s' = ground arith
template_fields_iff (some x) (some y) s s' = ground arith

module _ {Object Metadata : Type 0} (to_unstructured : Object → Result Fields)
    (template_object : YandexMachineTemplate Metadata → Object)
    (metadata_form : Metadata → Option Json) where
  -- What is documented of `ToUnstructured`: the specification of a template is an entry of its form,
  -- with the fields that the tags name.
  abbrev pub EncodesTemplates : Type 0
  EncodesTemplates =
      (t : YandexMachineTemplate Metadata)
      → (fields : Fields) × (to_unstructured (template_object t) ≡ ok fields)
        × (entry "spec" fields
            ≡ some (
                object (
                  template_fields (metadata_form t.spec.template.object_meta)
                    (spec_fields t.spec.template.spec))))

  module _ (E : EncodesTemplates) (old t : YandexMachineTemplate Metadata) where
    abbrev form : YandexMachineTemplate Metadata → Fields
    form t =
        template_fields (metadata_form t.spec.template.object_meta)
          (spec_fields t.spec.template.spec)

    compared :
        validate_update to_unstructured template_object (template_object old) t
        ≡ ok (specs_verdict t.name (form old) (form t))
    unfolding validate_update
    compared =
        let (new_fields, new_form, new_spec) = E t in
        let (old_fields, old_form, old_spec) = E old in
        rw (new_form, old_form)
          (on_spec_found new_fields _ _ new_spec ∙ on_spec_found old_fields _ _ old_spec)

    -- Where templates are converted as documented, an update of a template is admitted exactly if
    -- the specifications of its machines are the same, the provider ID included, and the metadata
    -- for its machines have equal forms; otherwise the only error says that the specification cannot
    -- be modified, and the webhook never panics.
    pub validate_update_template_iff :
        ((validate_update to_unstructured template_object (template_object old) t ≡ ok admitted) ↔ (
          SameForm
            (metadata_form old.spec.template.object_meta)
            (metadata_form t.spec.template.object_meta)
          × (old.spec.template.spec ≡ t.spec.template.spec)))
        × ((validate_update to_unstructured template_object (template_object old) t ≡ ok admitted)
            ⊎ (validate_update to_unstructured template_object (template_object old) t
                ≡ ok (invalid t.name (spec_immutable ∷ []))))
    validate_update_template_iff = rw compared ground (
      arith,
      template_fields_iff (metadata_form old.spec.template.object_meta)
          (metadata_form t.spec.template.object_meta) (spec_fields old.spec.template.spec)
          (spec_fields t.spec.template.spec),
      exact_fields_iff old.spec.template.spec t.spec.template.spec,
    )
