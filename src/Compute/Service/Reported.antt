-- ===== src/Compute/Service/Reported.antt =====
-- `Reconcile` of the compute service leaves what the controller alone reports.
use cluster_api_provider_yan.Prelude.{Bool, Option, ◌≡◌, refl, ◌∙◌, arith}
use cluster_api_provider_yan.Exec.{Result, ok, err, panic, continue, inspect}
use cluster_api_provider_yan.Api.Machine.{FailureReason}
use cluster_api_provider_yan.Cloud.{Client}
use cluster_api_provider_yan.Cloud.Messages.{Instance}
use cluster_api_provider_yan.Kube.{Kube, Libraries}
use cluster_api_provider_yan.Scope.Labels.{CapiLabels}
use cluster_api_provider_yan.Scope.Machine.{MachineScope, MachineState, set_provider_id}
use cluster_api_provider_yan.Compute.Service.{
  after_get, compute_get, ensure_instance, instance_gone, instance_running, instance_unknown,
  reconcile, register_control_plane, register_if_control_plane,
}

module _ {W : Type 0} where
  -- Whether the machine is ready, and why it failed.
  abbrev pub reported : MachineState W → Bool × Option FailureReason
  reported s = (s.yandex_machine.status.ready, s.yandex_machine.status.failure_reason)

module _ {W : Type 0} (libs : Libraries) (keys : CapiLabels) (kube : Kube W) (client : Client W)
    (scope : MachineScope W) where
  reported-ensure :
      (s : MachineState W) → reported (ensure_instance libs keys kube client scope s).1 ≡ reported s
  unfolding ensure_instance set_provider_id
  reported-ensure s = ground arith

  reported-register :
      (s : MachineState W)
      → reported (register_if_control_plane libs keys kube client scope s).1 ≡ reported s
  unfolding register_if_control_plane register_control_plane
  reported-register s = ground arith

  reported-running :
      (vm : Instance) (s : MachineState W)
      → reported (instance_running libs keys kube client scope vm s).1 ≡ reported s
  unfolding instance_running
  reported-running vm s = grind (arith, reported-register)

  reported-after_get :
      (r : Result Instance) (s : MachineState W)
      → reported (after_get libs keys kube client scope r s).1 ≡ reported s
  unfolding after_get instance_gone instance_unknown
  reported-after_get (ok vm) s = grind (arith, reported-running vm s)
  reported-after_get (err e) s = ground arith
  reported-after_get panic s = refl

  looked_up :
      (r : Result (Unit {0})) (s : MachineState W)
      → reported
          (continue r
            (λ _.
              inspect
                (compute_get libs keys kube client scope)
                (after_get libs keys kube client scope))
            s).1
        ≡ reported s
  looked_up (ok _) s =
      let (r, s') = compute_get libs keys kube client scope s in reported-after_get r s'
  looked_up (err e) s = refl
  looked_up panic s = refl

  -- Whatever the cloud answers, `Reconcile` leaves the readiness and the failure of the machine.
  pub reported-reconcile :
      (s : MachineState W) → reported (reconcile libs keys kube client scope s).1 ≡ reported s
  unfolding reconcile
  reported-reconcile s =
      let (r, s') = ensure_instance libs keys kube client scope s in
      looked_up r s' ∙ reported-ensure s
