-- ===== src/Compute/Service/Status.antt =====
-- `Reconcile` of the compute service leaves the state of the instance where it returns no error.
use cluster_api_provider_yan.Prelude.{
  String, refl, ◌≡◌, Option, some, Bool-cases, arith, inl, inr, ◌==◌,
}
use cluster_api_provider_yan.Exec.{Result, ok, err, panic, continue, inspect}
use cluster_api_provider_yan.Api.Machine.{InstanceStatus, status_deleted}
use cluster_api_provider_yan.Cloud.{Client}
use cluster_api_provider_yan.Cloud.Messages.{Instance}
use cluster_api_provider_yan.Kube.{Kube, Libraries}
use cluster_api_provider_yan.Scope.Machine.{
  MachineScope, MachineState, set_instance_status, get_instance_id,
}
use cluster_api_provider_yan.Scope.Labels.{CapiLabels}
use cluster_api_provider_yan.Compute.Service.{
  after_get, instance_gone, instance_unknown, compute_get, reconcile, ensure_instance, delete,
  after_delete_get, delete_existing, delete_missing, deregister_if_control_plane,
  deregister_control_plane,
}

-- The state that the lookup of an instance tells: an instance that is not found is deleted.
abbrev pub told : Result Instance → InstanceStatus
told (ok vm) = vm.status
told _ = status_deleted

module _ {W : Type 0} (libs : Libraries) (keys : CapiLabels) (kube : Kube W) (client : Client W)
    (scope : MachineScope W) where
  abbrev status_of : MachineState W → Option InstanceStatus
  status_of s = s.yandex_machine.status.instance_status

  after_get_status :
      (r : Result Instance) (s s' : MachineState W)
      → after_get libs keys kube client scope r s ≡ (ok tt, s')
      → status_of s' ≡ some (told r)
  unfolding after_get instance_gone instance_unknown
  after_get_status (ok vm) s s' h = grind arith
  after_get_status (err e) s s' h = ground arith
  after_get_status panic s s' h = absurd (ground arith)

  -- The lookup that `Reconcile` makes, once the machine has an instance.
  abbrev pub lookup : MachineState W → Result Instance × MachineState W
  lookup s =
      compute_get libs keys kube client scope (ensure_instance libs keys kube client scope s).1

  looked_up :
      (r : Result (Unit {0})) (s s' : MachineState W)
      → continue r
          (λ _.
            inspect
              (compute_get libs keys kube client scope)
              (after_get libs keys kube client scope))
          s
        ≡ (ok tt, s')
      → status_of s' ≡ some (told (compute_get libs keys kube client scope s).0)
  looked_up (ok _) s s' h = after_get_status _ _ s' h
  looked_up (err e) s s' h = absurd (ground arith)
  looked_up panic s s' h = absurd (ground arith)

  -- Where `Reconcile` returns no error, the state of the instance is in the machine: the one that
  -- the lookup told, or DELETED where the cloud does not know the instance.
  pub reconcile_status :
      (s s' : MachineState W)
      → reconcile libs keys kube client scope s ≡ (ok tt, s')
      → status_of s' ≡ some (told (lookup s).0)
  unfolding reconcile
  reconcile_status s s' h = looked_up (ensure_instance libs keys kube client scope s).0 _ s' h

  dereg_keeps :
      (s : MachineState W)
      → (deregister_if_control_plane libs keys kube client scope s).1.yandex_machine
        ≡ s.yandex_machine
  unfolding deregister_if_control_plane deregister_control_plane
  dereg_keeps s = ground arith

  existing_keeps :
      (id : String) (vm : Instance) (s : MachineState W)
      → (delete_existing libs keys kube client scope id vm s).1.yandex_machine.finalizers
        ≡ s.yandex_machine.finalizers
  unfolding delete_existing
  existing_keeps id vm s = ground (arith, dereg_keeps (set_instance_status vm.status s))

  missing_keeps :
      (s : MachineState W)
      → (delete_missing libs keys kube client scope s).1.yandex_machine.finalizers
        ≡ s.yandex_machine.finalizers
  unfolding delete_missing
  missing_keeps s = ground (arith, dereg_keeps s)

  after_keeps :
      (id : String) (r : Result Instance) (s : MachineState W)
      → (after_delete_get libs keys kube client scope id r s).1.yandex_machine.finalizers
        ≡ s.yandex_machine.finalizers
  unfolding after_delete_get
  after_keeps id (ok vm) s = existing_keeps id vm s
  after_keeps id (err e) s = ground (arith, missing_keeps s)
  after_keeps id panic s = refl

  -- Deleting an instance leaves the finalizers.
  pub delete_keeps_finalizers :
      (s : MachineState W)
      → (delete libs keys kube client scope s).1.yandex_machine.finalizers
        ≡ s.yandex_machine.finalizers
  unfolding delete
  delete_keeps_finalizers s = elim (Bool-cases (get_instance_id s.yandex_machine == "")) [
    | inl never ↦ rw never refl
    | inr has ↦
        let (r, s') = compute_get libs keys kube client scope s in
        rw has (after_keeps (get_instance_id s.yandex_machine) r s')
  ]
