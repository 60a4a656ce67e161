-- ===== src/Controllers/MachineReconciler/Finalizer.antt =====
-- When `reconcileDelete` of the machine controller gives up the finalizer of a machine.
use cluster_api_provider_yan.Prelude.{◌≡◌, ◌≢◌, refl, ◌⊎◌, Bool, true, false, List}
use cluster_api_provider_yan.Exec.{Result, ok, err, panic, is_ok}
use cluster_api_provider_yan.Exec.Errors.{Error}
use cluster_api_provider_yan.Api.Machine.{YandexMachine}
use cluster_api_provider_yan.Cloud.{Client}
use cluster_api_provider_yan.Cloud.Messages.{Instance}
use cluster_api_provider_yan.Cloud.Recording.{Call, Recorded, recording, recording_kube}
use cluster_api_provider_yan.Kube.{Kube, Libraries}
use cluster_api_provider_yan.Scope.Machine.{
  MachineScope, MachineState, get_instance_id, is_not_found,
}
use cluster_api_provider_yan.Scope.Labels.{CapiLabels}
use cluster_api_provider_yan.Compute.Service
use cluster_api_provider_yan.Compute.Service.Deregistration.{recorded_scope, due_deregistration}
use cluster_api_provider_yan.Compute.Service.Calls.{delete_lookup, delete_deleted_iff}
use cluster_api_provider_yan.Compute.Service.Status.{delete_keeps_finalizers}
use cluster_api_provider_yan.Controllers.MachineReconciler.{after_delete, reconcile_delete}

module _ {W : Type 0} (libs : Libraries) (keys : CapiLabels) (kube : Kube W) (client : Client W)
    (scope : MachineScope W) where
  changed_deleted :
      (s s' : MachineState W) (r : Result Bool)
      → Service.delete libs keys kube client scope s ≡ (r, s')
      → s'.yandex_machine.finalizers ≡ s.yandex_machine.finalizers
      → (reconcile_delete libs keys kube client scope s).1.yandex_machine.finalizers
        ≢ s.yandex_machine.finalizers
      → r ≡ ok true
  unfolding reconcile_delete after_delete
  changed_deleted s s' (ok true) e k changed = refl
  changed_deleted s s' (ok false) e k changed = absurd (changed (rw e k))
  changed_deleted s s' (err _) e k changed = absurd (changed (rw e k))
  changed_deleted s s' panic e k changed = absurd (changed (rw e k))

module _ {W : Type 0} (libs : Libraries) (keys : CapiLabels) (kube : Kube W) (client : Client W)
    (scope : MachineScope W) (ym : YandexMachine) (w : W) (calls : List Call) where
  abbrev start : MachineState (Recorded W)
  start = record { world = record { world = w; calls = calls }; yandex_machine = ym }

  -- `reconcileDelete` changes the finalizers of a machine only where the machine never had an
  -- instance, or the lookup of its instance failed with the code NOT_FOUND and the deregistration
  -- that is due was not refused.
  pub reconcile_delete_deleted :
      (r : Result Instance) (w₁ : W)
      → delete_lookup libs keys kube client scope ym w calls ≡ (r, w₁)
      → (reconcile_delete libs keys
          (recording_kube kube)
          (recording client)
          (recorded_scope scope)
          start).1.yandex_machine.finalizers
        ≢ ym.finalizers
      → (get_instance_id ym ≡ "")
        ⊎ ((e : Error) × (r ≡ err e)
            × (is_not_found libs e ≡ true)
            × (is_ok (due_deregistration libs keys kube client scope ym w₁).0 ≡ true))
  reconcile_delete_deleted r w₁ l changed =
      let deleted =
        changed_deleted libs keys (recording_kube kube) (recording client) (recorded_scope scope)
          start _ _ refl
          (delete_keeps_finalizers libs keys (recording_kube kube) (recording client)
            (recorded_scope scope) start)
          changed in
      (delete_deleted_iff libs keys kube client scope ym w calls r w₁ l).0 deleted
