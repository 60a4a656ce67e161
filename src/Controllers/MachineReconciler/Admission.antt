-- ===== src/Controllers/MachineReconciler/Admission.antt =====
-- The webhook admits the update that the controller makes of a machine.
use cluster_api_provider_yan.Prelude.{String, ◌≡◌, refl, ap, ◌∙◌, sym, Option, none, some, arith}
use cluster_api_provider_yan.Exec.{Result, ok}
use cluster_api_provider_yan.Api.Machine.{YandexMachine, YandexMachineSpec}
use cluster_api_provider_yan.Cloud.{Client}
use cluster_api_provider_yan.Kube.{Kube, Libraries}
use cluster_api_provider_yan.Scope.Machine.{MachineScope, MachineState}
use cluster_api_provider_yan.Scope.Labels.{CapiLabels}
use cluster_api_provider_yan.Compute.Service
use cluster_api_provider_yan.Compute.Service.Creation.{reconcile_spec}
use cluster_api_provider_yan.Controllers.MachineReconciler.{reconcile, when_bootstrapped}
use cluster_api_provider_yan.Controllers.MachineReconciler.Created.{instance_keeps}
use cluster_api_provider_yan.Webhooks.Verdicts.{admitted}
use cluster_api_provider_yan.Webhooks.Unstructured.{Fields}
use cluster_api_provider_yan.Scope.Machine.ProviderId.{without_provider_id}
use cluster_api_provider_yan.Webhooks.Machine.{validate_update}
use cluster_api_provider_yan.Webhooks.Machine.Updates.{EncodesMachines, validate_update_machine_iff}

module _ {W : Type 0} (libs : Libraries) (keys : CapiLabels) (kube : Kube W) (client : Client W)
    (scope : MachineScope W) where
  abbrev fixed : MachineState W → YandexMachineSpec
  fixed s = without_provider_id s.yandex_machine.spec

  fixed-bootstrapped :
      (secret : Option String) (s : MachineState W)
      → fixed (when_bootstrapped libs keys kube client scope secret s).1 ≡ fixed s
  unfolding when_bootstrapped
  fixed-bootstrapped none s = refl
  fixed-bootstrapped (some _) s =
      let (r, s') = Service.reconcile libs keys kube client scope s in
      ap without_provider_id (instance_keeps libs keys kube client scope s s' r refl)
      ∙ reconcile_spec libs keys kube client scope s.yandex_machine s.world

  fixed-reconcile :
      (s : MachineState W) → fixed (reconcile libs keys kube client scope s).1 ≡ fixed s
  unfolding reconcile
  fixed-reconcile s = grind (arith, fixed-bootstrapped)

  -- Where machines are converted as documented, the webhook admits the update from the machine as it
  -- was to the machine as `reconcile` leaves it, whatever the cloud and the API server answer.
  pub reconcile_machine_admitted :
      {Object : Type 0} (to_unstructured : Object → Result Fields)
      (machine_object : YandexMachine → Object)
      → EncodesMachines to_unstructured machine_object
      → (s : MachineState W)
      → validate_update to_unstructured machine_object
          (machine_object s.yandex_machine)
          (reconcile libs keys kube client scope s).1.yandex_machine
        ≡ ok admitted
  reconcile_machine_admitted to_unstructured machine_object E s =
      let s' = (reconcile libs keys kube client scope s).1 in
      (validate_update_machine_iff to_unstructured machine_object E s.yandex_machine
          s'.yandex_machine).0.1
        (sym (fixed-reconcile s))
