-- ===== src/Tests/Machines.antt =====
-- The webhooks of machines and of their templates.
use cluster_api_provider_yan.Prelude.{String, ◌≡◌, ◌↔◌, ◌⊎◌, refl, Option, none, some, [], ◌∷◌}
use cluster_api_provider_yan.Prelude.Regex.{match_string}
use cluster_api_provider_yan.Exec.{Result, ok}
use cluster_api_provider_yan.Api.Machine.{YandexMachine}
use cluster_api_provider_yan.Api.Template.{YandexMachineTemplate}
use cluster_api_provider_yan.Scope.Machine.{MachineState}
use cluster_api_provider_yan.Controllers.MachineReconciler.{reconcile}
use cluster_api_provider_yan.Controllers.MachineReconciler.Admission.{reconcile_machine_admitted}
use cluster_api_provider_yan.Webhooks.Verdicts.{admitted, invalid, spec_immutable, name_invalid}
use cluster_api_provider_yan.Webhooks.Unstructured.{Json, Fields, field, no_fields, object}
use cluster_api_provider_yan.Webhooks.Unstructured.Encoding.{spec_fields}
use cluster_api_provider_yan.Scope.Machine.ProviderId.{without_provider_id}
use cluster_api_provider_yan.Webhooks.Machine.{validate_update}
use cluster_api_provider_yan.Webhooks.Machine.Updates.{EncodesMachines, validate_update_machine_iff}
use cluster_api_provider_yan.Webhooks.Template.{
  validate_create, is_lower, is_lower_or_digit, is_inner_char,
}
use cluster_api_provider_yan.Webhooks.Template
use cluster_api_provider_yan.Webhooks.Template.Updates.{
  EncodesTemplates, SameForm, template_fields, validate_update_template_iff,
}
use cluster_api_provider_yan.Webhooks.Template.Names.{IsTemplateName, validate_create_admitted_iff}
use cluster_api_provider_yan.Tests.Fixtures.{
  World, client, created, full_world, keys, kube, libs, machine_scope, yandex_machine,
}

-- Here every object is a machine.
abbrev to_unstructured : YandexMachine → Result Fields
to_unstructured ym = ok (field "spec" (object (spec_fields ym.spec)) no_fields)

abbrev machine_object : YandexMachine → YandexMachine
machine_object ym = ym

encodes : EncodesMachines to_unstructured machine_object
encodes ym = (field "spec" (object (spec_fields ym.spec)) no_fields, refl, refl)

-- The provider ID may be set.
validate_update_machine_iff_example :
    ((validate_update to_unstructured machine_object yandex_machine created ≡ ok admitted)
      ↔ (without_provider_id yandex_machine.spec ≡ without_provider_id created.spec))
    × ((validate_update to_unstructured machine_object yandex_machine created ≡ ok admitted)
        ⊎ (validate_update to_unstructured machine_object yandex_machine created
            ≡ ok (invalid created.name (spec_immutable ∷ []))))
validate_update_machine_iff_example =
    validate_update_machine_iff to_unstructured machine_object encodes yandex_machine created

abbrev begin : MachineState World
begin = record { world = full_world; yandex_machine = yandex_machine }

reconcile_machine_admitted_example :
    validate_update to_unstructured machine_object yandex_machine
      (reconcile libs keys kube client machine_scope begin).1.yandex_machine
    ≡ ok admitted
reconcile_machine_admitted_example =
    reconcile_machine_admitted libs keys kube client machine_scope to_unstructured machine_object
      encodes begin

abbrev a_template : YandexMachineTemplate (Unit {0})
a_template = record {
  name = "worker-1";
  spec = record { template = record { object_meta = tt; spec = yandex_machine.spec } };
}

validate_create_admitted_iff_example :
    (validate_create a_template ≡ admitted)
    ↔ ((a_template.spec.template.spec.provider_id ≡ none) × IsTemplateName "worker-1")
validate_create_admitted_iff_example = validate_create_admitted_iff a_template

abbrev named : String → YandexMachineTemplate (Unit {0})
named name = record a_template { name = name }

-- The longest name, and one more character.
bounds :
    (validate_create (named "aaaaaaaaaaaaaaaaaaaaaaaaaaaaaaaaaaaaaaaaaaaaaaaaaaaaaaaaa") ≡ admitted)
    × (validate_create (named "aaaaaaaaaaaaaaaaaaaaaaaaaaaaaaaaaaaaaaaaaaaaaaaaaaaaaaaaaa")
        ≡ invalid "aaaaaaaaaaaaaaaaaaaaaaaaaaaaaaaaaaaaaaaaaaaaaaaaaaaaaaaaaa"
            (name_invalid "aaaaaaaaaaaaaaaaaaaaaaaaaaaaaaaaaaaaaaaaaaaaaaaaaaaaaaaaaa" ∷ []))
unfolding validate_create match_string is_lower is_lower_or_digit is_inner_char
bounds = (refl, refl)

ends_with_hyphen : validate_create (named "a-") ≡ invalid "a-" (name_invalid "a-" ∷ [])
unfolding validate_create match_string is_lower is_lower_or_digit is_inner_char
ends_with_hyphen = refl

-- Here every object is a template.
abbrev template_unstructured : YandexMachineTemplate (Unit {0}) → Result Fields
template_unstructured t = ok (
    field "spec"
      (object (template_fields (some (object no_fields)) (spec_fields t.spec.template.spec)))
      no_fields)

abbrev bare : Unit {0} → Option Json
bare m = some (object no_fields)

template_encodes : EncodesTemplates template_unstructured (λ t. t) bare
template_encodes t = (
  field "spec"
      (object (template_fields (some (object no_fields)) (spec_fields t.spec.template.spec)))
      no_fields,
  refl,
  refl,
)

abbrev changed_template : YandexMachineTemplate (Unit {0})
changed_template = record a_template {
  spec = record { template = record { object_meta = tt; spec = created.spec } };
}

validate_update_template_iff_example :
    ((Template.validate_update template_unstructured (λ t. t) a_template changed_template
        ≡ ok admitted)
      ↔ (SameForm (bare tt) (bare tt) × (yandex_machine.spec ≡ created.spec)))
    × ((Template.validate_update template_unstructured (λ t. t) a_template changed_template
          ≡ ok admitted)
        ⊎ (Template.validate_update template_unstructured (λ t. t) a_template changed_template
            ≡ ok (invalid "worker-1" (spec_immutable ∷ []))))
validate_update_template_iff_example =
    validate_update_template_iff template_unstructured (λ t. t) bare template_encodes a_template
      changed_template
