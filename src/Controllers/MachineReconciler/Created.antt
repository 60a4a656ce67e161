-- ===== src/Controllers/MachineReconciler/Created.antt =====
-- An instance that a reconciliation of a machine creates is in the machine when it ends.
use cluster_api_provider_yan.Prelude.{String, ◌≡◌, refl, ap, ◌∙◌, some, arith}
use cluster_api_provider_yan.Exec.{Result, ok, err, panic}
use cluster_api_provider_yan.Api.Machine.{InstanceStatus}
use cluster_api_provider_yan.Cloud.{Client}
use cluster_api_provider_yan.Kube.{Kube, Libraries}
use cluster_api_provider_yan.Scope.Machine.{MachineScope, MachineState, get_instance_id}
use cluster_api_provider_yan.Scope.Machine.ProviderId.{get_instance_id_of_spec}
use cluster_api_provider_yan.Scope.Labels.{CapiLabels}
use cluster_api_provider_yan.Compute.Service
use cluster_api_provider_yan.Compute.Service.{create_compute_instance}
use cluster_api_provider_yan.Compute.Service.Creation.{reconcile_notes_instance}
use cluster_api_provider_yan.Controllers.Outcome.{Outcome}
use cluster_api_provider_yan.Controllers.MachineReconciler.{
  by_state, reconcile_instance, when_bootstrapped,
}
use cluster_api_provider_yan.Controllers.MachineReconciler.Progress.{final, patched, written}

module _ {W : Type 0} (libs : Libraries) (keys : CapiLabels) (kube : Kube W) (client : Client W)
    (scope : MachineScope W) where
  state_keeps :
      (st : InstanceStatus) (s : MachineState W)
      → (by_state libs keys kube client st s).1.yandex_machine.spec ≡ s.yandex_machine.spec
  unfolding by_state
  state_keeps st s = ground arith

  pub instance_keeps :
      (s s' : MachineState W) (r : Result (Unit {0}))
      → Service.reconcile libs keys kube client scope s ≡ (r, s')
      → (reconcile_instance libs keys kube client scope s).1.yandex_machine.spec
        ≡ s'.yandex_machine.spec
  unfolding reconcile_instance
  instance_keeps s s' (ok _) e = rw e (grind (arith, state_keeps))
  instance_keeps s s' (err _) e = rw e refl
  instance_keeps s s' panic e = rw e refl

  -- Where the bootstrap data is there, the object with its finalizer is written and an instance is
  -- then created for a machine without one, `reconcile` leaves the ID of that instance in the
  -- machine, whatever the calls after the creation answer, an error or a panic included.
  pub reconcile_notes_created :
      (s : MachineState W) (name id : String) (w' : W)
      → scope.machine.data_secret_name ≡ some name
      → (patched libs keys kube client scope s).0 ≡ ok tt
      → get_instance_id s.yandex_machine ≡ ""
      → create_compute_instance libs keys kube client scope
          (patched libs keys kube client scope s).1.yandex_machine
          (patched libs keys kube client scope s).1.world
        ≡ (ok id, w')
      → get_instance_id (final libs keys kube client scope s).1.yandex_machine ≡ id
  unfolding when_bootstrapped
  reconcile_notes_created s name id w' hn hp none_yet created =
      let s₁ = (patched libs keys kube client scope s).1 in
      let (r, s₂) = Service.reconcile libs keys kube client scope s₁ in
      let run =
        written libs keys kube client scope s hp
        ∙ ap (λ o. when_bootstrapped libs keys kube client scope o s₁) hn in
      get_instance_id_of_spec _ s₂.yandex_machine (
        ap (λ (p : Result Outcome × MachineState W). p.1.yandex_machine.spec) run
        ∙ instance_keeps s₁ s₂ r refl)
      ∙ reconcile_notes_instance libs keys kube client scope s₁.yandex_machine s₁.world id w'
          (get_instance_id_of_spec s₁.yandex_machine s.yandex_machine refl ∙ none_yet) created
