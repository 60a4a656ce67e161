-- ===== src/Api/Template.antt =====
-- api/v1alpha1/yandexmachinetemplate_types.go: `YandexMachineTemplate`. The standard metadata of the
-- machines that are made from a template is not read by the program: `Metadata`.
use cluster_api_provider_yan.Prelude.{String}
use cluster_api_provider_yan.Api.Machine.{YandexMachineSpec}

pub record YandexMachineTemplateResource (Metadata : Type 0) : Type 0 where
  pub object_meta : Metadata
  pub spec : YandexMachineSpec

pub record YandexMachineTemplateSpec (Metadata : Type 0) : Type 0 where
  pub template : YandexMachineTemplateResource Metadata

pub record YandexMachineTemplate (Metadata : Type 0) : Type 0 where
  pub name : String
  pub spec : YandexMachineTemplateSpec Metadata
