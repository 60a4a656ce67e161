-- ===== src/Webhooks/Template.antt =====
-- api/v1alpha1/yandexmachinetemplate_webhook.go: the validation of a YandexMachineTemplate.
pub mod Names
pub mod Updates
use cluster_api_provider_yan.Prelude.{
  ℕ, String, Bool, not, ◌&&◌, ◌||◌, Option, none, some, ◌++◌, leb, eqb,
}
use cluster_api_provider_yan.Prelude.Regex.{Regex, class, seq, up_to, optional, match_string}
use cluster_api_provider_yan.Exec.{Result, ok}
use cluster_api_provider_yan.Api.Template.{YandexMachineTemplate}
use cluster_api_provider_yan.Webhooks.Verdicts.{
  Verdict, admitted, error_if, verdict, provider_id_set, name_invalid, new_unconverted,
  old_unconverted,
}
use cluster_api_provider_yan.Webhooks.Unstructured.{Fields}
use cluster_api_provider_yan.Webhooks.Machine.{on_converted, on_spec, specs_verdict}

-- The classes `[a-z]`, `[a-z0-9]` and `[-a-z0-9]`
unfoldable pub is_lower : ℕ → Bool
is_lower c = leb 97 c && leb c 122

unfoldable pub is_lower_or_digit : ℕ → Bool
is_lower_or_digit c = is_lower c || (leb 48 c && leb c 57)

unfoldable pub is_inner_char : ℕ → Bool
is_inner_char c = eqb c 45 || is_lower_or_digit c

-- `^[a-z]([-a-z0-9]{0,55}[a-z0-9])?$`
abbrev pub name_regex : Regex
name_regex =
    seq (class is_lower) (optional (seq (up_to 55 (class is_inner_char)) (class is_lower_or_digit)))

-- `x != nil`
abbrev pub is_set : {A : Type 0} → Option A → Bool
is_set none = Bool.false
is_set (some _) = Bool.true

module _ {Metadata : Type 0} where
  unfoldable pub validate_create : YandexMachineTemplate Metadata → Verdict
  validate_create t = verdict t.name (
      error_if (is_set t.spec.template.spec.provider_id) provider_id_set
      ++ error_if (not (match_string name_regex t.name)) (name_invalid t.name))

  abbrev pub validate_delete : YandexMachineTemplate Metadata → Verdict
  validate_delete t = admitted

  module _ {Object : Type 0} (to_unstructured : Object → Result Fields)
      (template_object : YandexMachineTemplate Metadata → Object) where
    unfoldable pub validate_update : Object → YandexMachineTemplate Metadata → Result Verdict
    validate_update old t =
        on_converted t.name new_unconverted (to_unstructured (template_object t)) (λ new_template.
          on_converted t.name old_unconverted (to_unstructured old) (λ old_template.
            on_spec new_template (λ new_spec.
              on_spec old_template (λ old_spec. ok (specs_verdict t.name old_spec new_spec)))))
