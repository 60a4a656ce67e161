-- ===== src/Scope/Machine/ProviderId.antt =====
-- The provider ID of a machine holds the ID of its instance behind a prefix.
use cluster_api_provider_yan.Prelude.{String, ◌<>◌, ◌≡◌, refl, ap, none, some}
use cluster_api_provider_yan.Prelude.Text.{trim_prefix-append}
use cluster_api_provider_yan.Api.Machine.{YandexMachine, YandexMachineSpec}
use cluster_api_provider_yan.Scope.Machine.{
  get_provider_id, set_provider_id, parse_provider_id, get_instance_id, provider_id_prefix,
}

-- What the provider ID is left out of.
abbrev pub without_provider_id : YandexMachineSpec → YandexMachineSpec
without_provider_id spec = record spec { provider_id = none }

-- The instance ID that `SetProviderID` was given is the one that `GetInstanceID` reads back; the
-- provider ID is that ID behind the prefix, and the status of the machine is as it was.
pub get_instance_id-set_provider_id :
    (id : String) (ym : YandexMachine)
    → (get_instance_id (set_provider_id id ym) ≡ id)
      × (get_provider_id (set_provider_id id ym) ≡ provider_id_prefix <> id)
      × ((set_provider_id id ym).status ≡ ym.status)
unfolding get_instance_id get_provider_id set_provider_id parse_provider_id
get_instance_id-set_provider_id id ym = (trim_prefix-append provider_id_prefix id, refl, refl)

-- The instance ID is read from the specification alone.
pub get_instance_id_of_spec :
    (a b : YandexMachine) → a.spec ≡ b.spec → get_instance_id a ≡ get_instance_id b
unfolding get_instance_id get_provider_id
get_instance_id_of_spec a b e =
    ap
      (λ (spec : YandexMachineSpec).
        parse_provider_id (elim spec.provider_id [ none ↦ "" | some id ↦ id ]))
      e
