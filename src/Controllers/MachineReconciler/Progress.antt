-- ===== src/Controllers/MachineReconciler/Progress.antt =====
-- How `reconcile` of the machine controller ends, from what the compute service leaves.
use cluster_api_provider_yan.Prelude.{
  String, ◌≡◌, refl, ap, sym, ◌∙◌, ◌==◌, ◌||◌, Bool, Option, true, false, some, none, arith,
  if◌then◌else◌, Bool-cases, inl, inr, ◌⊎◌, eq_iff,
}
use cluster_api_provider_yan.Exec.{Result, panic, is_ok, ok, err}
use cluster_api_provider_yan.Exec.Errors.{wrapped, adding_finalizer}
use cluster_api_provider_yan.Api.Machine.{
  FailureReason, InstanceStatus, status_starting, status_provisioning, status_running,
  update_machine_error,
}
use cluster_api_provider_yan.Cloud.{Client}
use cluster_api_provider_yan.Kube.{Kube, Libraries}
use cluster_api_provider_yan.Scope.Machine.{MachineScope, MachineState, patch_object}
use cluster_api_provider_yan.Scope.Labels.{CapiLabels}
use cluster_api_provider_yan.Compute.Service
use cluster_api_provider_yan.Compute.Service.Status.{told, lookup, reconcile_status}
use cluster_api_provider_yan.Compute.Service.Reported.{reported, reported-reconcile}
use cluster_api_provider_yan.Controllers.Outcome.{Outcome, done, again_later}
use cluster_api_provider_yan.Controllers.MachineReconciler.{
  add_finalizer, by_state, reconcile, reconcile_instance, when_bootstrapped,
}

-- The states that an instance passes on its way, the last included.
abbrev pub is_expected : InstanceStatus → Bool
is_expected st = st == status_starting || st == status_provisioning || st == status_running

module _ {W : Type 0} (libs : Libraries) (keys : CapiLabels) (kube : Kube W) (client : Client W)
    (scope : MachineScope W) where
  -- The object with its finalizer, once it is written.
  abbrev pub patched : MachineState W → Result (Unit {0}) × MachineState W
  patched s = patch_object kube scope (add_finalizer libs keys kube client s)

  abbrev pub serviced : MachineState W → Result (Unit {0}) × MachineState W
  serviced s = Service.reconcile libs keys kube client scope (patched s).1

  abbrev pub final : MachineState W → Result Outcome × MachineState W
  final s = reconcile libs keys kube client scope s

  -- The state of the instance that the compute service was told.
  abbrev pub state : MachineState W → InstanceStatus
  state s = told (lookup libs keys kube client scope (patched s).1).0

  pub record Progress (s : MachineState W) : Type 0 where
    pub outcome : (final s).0 ≡ ok (if state s == status_running then done else again_later)
    pub noted : (final s).1.yandex_machine.status.instance_status ≡ some (state s)
    pub ready :
        (final s).1.yandex_machine.status.ready
        ≡ (if state s == status_running then true else s.yandex_machine.status.ready)
    pub failed : (final s).1.yandex_machine.status.failure_reason ≡ (
        if is_expected (state s)
        then s.yandex_machine.status.failure_reason
        else some update_machine_error)

  early_not_running :
      (st : InstanceStatus)
      → (st == status_starting || st == status_provisioning) ≡ true
      → (st == status_running) ≡ false
  early_not_running st h = elim (Bool-cases (st == status_starting)) [
    | inl starting ↦ rw ((eq_iff st status_starting).0 starting) refl
    | inr other ↦ rw ((eq_iff st status_provisioning).0 (ground arith)) refl
  ]

  by_state_lem :
      (st : InstanceStatus) (s : MachineState W)
      → let e = by_state libs keys kube client st s in
        (e.0 ≡ ok (if st == status_running then done else again_later))
        × (e.1.yandex_machine.status.instance_status ≡ s.yandex_machine.status.instance_status)
        × (e.1.yandex_machine.status.ready
            ≡ (if st == status_running then true else s.yandex_machine.status.ready))
        × (e.1.yandex_machine.status.failure_reason ≡ (
            if is_expected st
            then s.yandex_machine.status.failure_reason
            else some update_machine_error))
  unfolding by_state
  by_state_lem st s = elim (Bool-cases (st == status_starting || st == status_provisioning)) [
    | inl early ↦ rw (early, early_not_running st early) (refl, refl, refl, ground arith)
    | inr late ↦ elim (Bool-cases (st == status_running)) [
      | inl runs ↦ rw (late, runs) (refl, refl, refl, ground arith)
      | inr other ↦ rw (late, other) (refl, refl, refl, ground arith)
    ]
  ]

  pub written :
      (s : MachineState W)
      → (patched s).0 ≡ ok tt
      → final s
        ≡ when_bootstrapped libs keys kube client scope scope.machine.data_secret_name (patched s).1
  unfolding reconcile
  written s hp = rw hp refl

  instance_run :
      (s s' : MachineState W) (st : InstanceStatus)
      → Service.reconcile libs keys kube client scope s ≡ (ok tt, s')
      → s'.yandex_machine.status.instance_status ≡ some st
      → reconcile_instance libs keys kube client scope s ≡ by_state libs keys kube client st s'
  unfolding reconcile_instance
  instance_run s s' st hs ht = rw (hs, ht) refl

  final_run :
      (s s' : MachineState W) (st : InstanceStatus) (name : String)
      → scope.machine.data_secret_name ≡ some name
      → (patched s).0 ≡ ok tt
      → serviced s ≡ (ok tt, s')
      → s'.yandex_machine.status.instance_status ≡ some st
      → final s ≡ by_state libs keys kube client st s'
  unfolding when_bootstrapped
  final_run s s' st name hn hp hs ht =
      written s hp
      ∙ ap (λ o. when_bootstrapped libs keys kube client scope o (patched s).1) hn
      ∙ instance_run (patched s).1 s' st hs ht

  -- Where the bootstrap data is there, the object with its finalizer is written, and the compute
  -- service returns no error, `reconcile` ends well: the state of the instance is the one that the
  -- cloud told, DELETED where it does not know the instance. Where that state is RUNNING the machine
  -- is made ready and is done; otherwise it is as ready as it was, and is tried again later. A state
  -- that is not STARTING, PROVISIONING or RUNNING is noted as a failure, and with the three the
  -- failure reason is as it was.
  pub reconcile-Progress :
      (s s' : MachineState W) (name : String)
      → scope.machine.data_secret_name ≡ some name
      → (patched s).0 ≡ ok tt
      → serviced s ≡ (ok tt, s')
      → Progress s
  reconcile-Progress s s' name hn hp hs =
      let ht = reconcile_status libs keys kube client scope (patched s).1 s' hs in
      let run = final_run s s' (state s) name hn hp hs ht in
      let same : reported s' ≡ reported s =
        ap (λ (p : Result (Unit {0}) × MachineState W). reported p.1) (sym hs)
        ∙ reported-reconcile libs keys kube client scope (patched s).1 in
      let (outcome, noted, ready, failed) = by_state_lem (state s) s' in
      record {
        outcome = rw run outcome;
        noted = rw run (noted ∙ ht);
        ready = rw run (
            ready
            ∙ ap
                (λ (p : Bool × Option FailureReason).
                  if state s == status_running then true else p.0)
                same);
        failed = rw run (
            failed
            ∙ ap
                (λ (p : Bool × Option FailureReason).
                  if is_expected (state s) then p.1 else some update_machine_error)
                same);
      }

  -- What `reconcile` returns where it stops after its write.
  abbrev pub stopped : Result (Unit {0}) → Result Outcome
  stopped (ok _) = ok done
  stopped (err e) = err (wrapped adding_finalizer e)
  stopped panic = panic

  refused :
      (r : Result (Unit {0})) (s : MachineState W)
      → (patched s).0 ≡ r
      → is_ok r ≡ false
      → final s ≡ (stopped r, (patched s).1)
  unfolding reconcile
  refused (ok _) s h refusal = absurd (cc)
  refused (err e) s h refusal = rw h refl
  refused panic s h refusal = rw h refl

  without_data :
      (r : Result (Unit {0})) (s : MachineState W)
      → (patched s).0 ≡ r
      → scope.machine.data_secret_name ≡ none
      → final s ≡ (stopped r, (patched s).1)
  unfolding when_bootstrapped
  without_data (ok _) s h missing =
      written s h ∙ ap (λ o. when_bootstrapped libs keys kube client scope o (patched s).1) missing
  without_data (err e) s h missing = refused (err e) s h refl
  without_data panic s h missing = refused panic s h refl

  -- Where the object cannot be written with its finalizer, or the bootstrap data is missing,
  -- `reconcile` asks nothing of the cloud: the attempt to write is all that it does, and an error
  -- of it is returned.
  pub reconcile_unwritten :
      (s : MachineState W)
      → (is_ok (patched s).0 ≡ false) ⊎ (scope.machine.data_secret_name ≡ none)
      → final s ≡ (stopped (patched s).0, (patched s).1)
  reconcile_unwritten s (inl refusal) = refused (patched s).0 s refl refusal
  reconcile_unwritten s (inr missing) = without_data (patched s).0 s refl missing
