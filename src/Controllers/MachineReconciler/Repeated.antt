-- ===== src/Controllers/MachineReconciler/Repeated.antt =====
-- `reconcile` of the machine controller run again and again, while the cloud and the API server
-- change in between.
use cluster_api_provider_yan.Prelude.{
  String, ◌≡◌, ◌≢◌, refl, ap, sym, subst, ◌∙◌, Option, none, some, List, [], ◌∷◌, suc, arith, false,
  ◌⊎◌, inl, inr,
}
use cluster_api_provider_yan.Exec.{Result, ok, err, panic, is_ok}
use cluster_api_provider_yan.Api.Machine.{InstanceStatus}
use cluster_api_provider_yan.Cloud.{Client}
use cluster_api_provider_yan.Cloud.Recording.{Recorded, recording, recording_kube}
use cluster_api_provider_yan.Kube.{Kube, Libraries}
use cluster_api_provider_yan.Scope.Machine.{MachineScope, MachineState, get_instance_id}
use cluster_api_provider_yan.Scope.Machine.ProviderId.{get_instance_id_of_spec}
use cluster_api_provider_yan.Scope.Labels.{CapiLabels}
use cluster_api_provider_yan.Compute.Service
use cluster_api_provider_yan.Compute.Service.{create_compute_instance}
use cluster_api_provider_yan.Compute.Service.Deregistration.{recorded_scope}
use cluster_api_provider_yan.Compute.Service.Counting.{
  creations, run, run_keeps, reconcile_creates_once,
}
use cluster_api_provider_yan.Controllers.Outcome.{Outcome}
use cluster_api_provider_yan.Controllers.MachineReconciler.{
  by_state, reconcile_instance, when_bootstrapped,
}
use cluster_api_provider_yan.Controllers.MachineReconciler.Created.{instance_keeps}
use cluster_api_provider_yan.Controllers.MachineReconciler.Progress.{
  final, patched, reconcile_unwritten, written,
}

module _ {W : Type 0} (libs : Libraries) (keys : CapiLabels) (kube : Kube W) (client : Client W)
    (scope : MachineScope W) where
  state_world :
      (st : InstanceStatus) (s : MachineState W)
      → (by_state libs keys kube client st s).1.world ≡ s.world
  unfolding by_state
  state_world st s = ground arith

  -- After the compute service, nothing is asked for.
  instance_world :
      (s s' : MachineState W) (r : Result (Unit {0}))
      → Service.reconcile libs keys kube client scope s ≡ (r, s')
      → (reconcile_instance libs keys kube client scope s).1.world ≡ s'.world
  unfolding reconcile_instance
  instance_world s s' (ok _) e = rw e (grind (arith, state_world))
  instance_world s s' (err _) e = rw e refl
  instance_world s s' panic e = rw e refl

module _ {W : Type 0} (libs : Libraries) (keys : CapiLabels) (kube : Kube W) (client : Client W)
    (scope : MachineScope W) where
  abbrev written_state : MachineState (Recorded W) → Result (Unit {0}) × MachineState (Recorded W)
  written_state = patched libs keys (recording_kube kube) (recording client) (recorded_scope scope)

  -- `reconcile` over the cloud and the API server that note their calls.
  abbrev pub reconcile_run : MachineState (Recorded W) → MachineState (Recorded W)
  reconcile_run s =
      (final libs keys (recording_kube kube) (recording client) (recorded_scope scope) s).1

  abbrev changed : (W → W) → MachineState (Recorded W) → MachineState (Recorded W)
  changed change s = record s { world = record s.world { world = change s.world.world } }

  -- A run after each of the changes, on the machine as the run before left it.
  abbrev pub reconcile_after_each :
      List (W → W) → MachineState (Recorded W) → MachineState (Recorded W)
  reconcile_after_each [] s = s
  reconcile_after_each (change ∷ changes) s =
      reconcile_after_each changes (reconcile_run (changed change s))

  abbrev Kept : MachineState (Recorded W) → MachineState (Recorded W) → Type 0
  Kept s s' =
      (get_instance_id s'.yandex_machine ≡ get_instance_id s.yandex_machine)
      × (creations s'.world.calls ≡ creations s.world.calls)

  -- The write with the finalizer, and what a run does that ends there.
  patched-Kept : (s : MachineState (Recorded W)) → Kept s (written_state s).1
  patched-Kept s =
      (get_instance_id_of_spec (written_state s).1.yandex_machine s.yandex_machine refl, refl)

  Kept-eq : (s a b : MachineState (Recorded W)) → a ≡ b → Kept s b → Kept s a
  Kept-eq s a b e k = subst (λ x. Kept s x) (sym e) k

  run_through :
      (s : MachineState (Recorded W)) (name : String)
      → scope.machine.data_secret_name ≡ some name
      → (written_state s).0 ≡ ok tt
      → ((reconcile_run s).yandex_machine.spec
          ≡ (run libs keys kube client scope (written_state s).1).yandex_machine.spec)
        × ((reconcile_run s).world ≡ (run libs keys kube client scope (written_state s).1).world)
  unfolding when_bootstrapped
  run_through s name hn hp =
      let s₁ = (written_state s).1 in
      let went =
        written libs keys (recording_kube kube) (recording client) (recorded_scope scope) s hp
        ∙ ap
            (λ o.
              when_bootstrapped libs keys (recording_kube kube) (recording client)
                (recorded_scope scope) o s₁)
            hn in
      (
        ap (λ (p : Result Outcome × MachineState (Recorded W)). p.1.yandex_machine.spec) went
            ∙ instance_keeps libs keys (recording_kube kube) (recording client)
                (recorded_scope scope) s₁ _ _ refl,
        ap (λ (p : Result Outcome × MachineState (Recorded W)). p.1.world) went
            ∙ instance_world libs keys (recording_kube kube) (recording client)
                (recorded_scope scope) s₁ _ _ refl,
      )

  run_bootstrapped :
      (s : MachineState (Recorded W)) (name : String)
      → scope.machine.data_secret_name ≡ some name
      → (written_state s).0 ≡ ok tt
      → get_instance_id s.yandex_machine ≢ ""
      → Kept s (reconcile_run s)
  run_bootstrapped s name hn hp h =
      let s₁ = (written_state s).1 in
      let before = patched-Kept s in
      let through = run_through s name hn hp in
      let kept = run_keeps libs keys kube client scope s₁ (λ e. h (sym before.0 ∙ e)) in
      (
        get_instance_id_of_spec (reconcile_run s).yandex_machine _ through.0 ∙ kept.0 ∙ before.0,
        ap (λ (w : Recorded W). creations w.calls) through.1 ∙ kept.1 ∙ before.1,
      )

  run_ended :
      (s : MachineState (Recorded W))
      → (is_ok (written_state s).0 ≡ false) ⊎ (scope.machine.data_secret_name ≡ none)
      → Kept s (reconcile_run s)
  run_ended s early =
      Kept-eq s (reconcile_run s) (written_state s).1
        (ap (λ (p : Result Outcome × MachineState (Recorded W)). p.1)
          (reconcile_unwritten libs keys (recording_kube kube) (recording client)
            (recorded_scope scope) s early))
        (patched-Kept s)

  run_by :
      (r : Result (Unit {0})) (o : Option String) (s : MachineState (Recorded W))
      → (written_state s).0 ≡ r
      → scope.machine.data_secret_name ≡ o
      → get_instance_id s.yandex_machine ≢ ""
      → Kept s (reconcile_run s)
  run_by (ok tt) (some name) s hp hn h = run_bootstrapped s name hn hp h
  run_by (ok _) none s hp hn h = run_ended s (inr hn)
  run_by (err e) o s hp hn h = run_ended s (inl (ap is_ok hp))
  run_by panic o s hp hn h = run_ended s (inl (ap is_ok hp))

  after_each_Kept :
      (changes : List (W → W)) (s : MachineState (Recorded W))
      → get_instance_id s.yandex_machine ≢ ""
      → Kept s (reconcile_after_each changes s)
  after_each_Kept [] s h = (refl, refl)
  after_each_Kept (change ∷ changes) s h =
      let next = changed change s in
      let one = run_by (written_state next).0 scope.machine.data_secret_name next refl refl h in
      let rest = after_each_Kept changes (reconcile_run next) (λ e. h (sym one.0 ∙ e)) in
      (rest.0 ∙ one.0, rest.1 ∙ one.1)

  -- Where a run of `reconcile` writes the object of a machine without an instance and, the bootstrap
  -- data being there, creates an instance whose ID is not empty, then however often `reconcile` is
  -- run afterwards, each time on the machine as the run before left it, and however the cloud and
  -- the API server change in between, no other instance is asked for and the machine keeps the ID.
  pub reconcile_creates_once_machine :
      (s : MachineState (Recorded W)) (name id : String) (after : Recorded W)
      (changes : List (W → W))
      → scope.machine.data_secret_name ≡ some name
      → (written_state s).0 ≡ ok tt
      → get_instance_id s.yandex_machine ≡ ""
      → id ≢ ""
      → create_compute_instance libs keys
          (recording_kube kube)
          (recording client)
          (recorded_scope scope)
          (written_state s).1.yandex_machine
          (written_state s).1.world
        ≡ (ok id, after)
      → (get_instance_id (reconcile_after_each changes (reconcile_run s)).yandex_machine ≡ id)
        × (creations (reconcile_after_each changes (reconcile_run s)).world.calls
            ≡ suc (creations s.world.calls))
  reconcile_creates_once_machine s name id after changes hn hp none_yet named created =
      let s₁ = (written_state s).1 in
      let before = patched-Kept s in
      let through = run_through s name hn hp in
      let once =
        reconcile_creates_once libs keys kube client scope s₁.yandex_machine s₁.world after id
          (before.0 ∙ none_yet) named created in
      let noted =
        get_instance_id_of_spec (reconcile_run s).yandex_machine
          (run libs keys kube client scope s₁).yandex_machine through.0
        ∙ once.0 in
      let kept = after_each_Kept changes (reconcile_run s) (λ e. named (sym noted ∙ e)) in
      (kept.0 ∙ noted, kept.1 ∙ ap (λ (w : Recorded W). creations w.calls) through.1 ∙ once.1)
