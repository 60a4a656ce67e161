-- ===== src/Compute/Service/Counting.antt =====
-- How often `Reconcile` of the compute service asks for an instance.
use cluster_api_provider_yan.Prelude.{
  Option, none, some, ℕ, String, ◌==◌, ◌≡◌, ◌≢◌, refl, ap, sym, ◌∙◌, List, [], ◌∷◌, ◌++◌, suc,
  arith, Bool-cases, inl, inr,
}
use cluster_api_provider_yan.Exec.{Result, ok, err, panic, Exec, continue, deref, lift, ◌>>=◌}
use cluster_api_provider_yan.Exec.Errors.{disk_size_unparsed, memory_unparsed}
use cluster_api_provider_yan.Api.Machine.{YandexMachine, NetworkInterface}
use cluster_api_provider_yan.Api.Machine.{status_running}
use cluster_api_provider_yan.Cloud.{Client}
use cluster_api_provider_yan.Cloud.Messages.{Instance}
use cluster_api_provider_yan.Cloud.Recording.{
  Call, Recorded, recording, recording_kube, create_instance,
}
use cluster_api_provider_yan.Cloud.Requests.{CreateInstanceRequest}
use cluster_api_provider_yan.Prelude.Lists.{Map}
use cluster_api_provider_yan.Kube.{Kube, Libraries}
use cluster_api_provider_yan.Scope.Machine.{
  MachineScope, MachineState, get_instance_id, get_bootstrap_data, secret_value, set_provider_id,
}
use cluster_api_provider_yan.Scope.Machine.ProviderId.{
  get_instance_id-set_provider_id, get_instance_id_of_spec,
}
use cluster_api_provider_yan.Scope.InstanceRequest.{get_instance_req, parsed}
use cluster_api_provider_yan.Scope.Labels.{CapiLabels}
use cluster_api_provider_yan.Compute.Service.{create_compute_instance, reconcile}
use cluster_api_provider_yan.Compute.Service.Creation.{reconcile_created, reconcile_keeps_instance}
use cluster_api_provider_yan.Compute.Service.Deregistration.{recorded_scope}
use cluster_api_provider_yan.Compute.Service.Registration.{
  due_registration, reconcile_existing_calls, only_address, registration_in,
}

-- How often an instance was asked for.
abbrev pub creations : List Call → ℕ
creations [] = 0
creations (create_instance _ ∷ calls) = suc (creations calls)
creations (_ ∷ calls) = creations calls

-- A step that asks for nothing that changes the cloud.
record Silent {W A : Type 0} (m : Exec (Recorded W) A) : Type 0 where
  same_calls : (s : Recorded W) → (m s).1.calls ≡ s.calls

module _ {W A B : Type 0} {k : A → Exec (Recorded W) B} (h : (a : A) → Silent (k a)) where
  Silent-continue : (r : Result A) (s : Recorded W) → (continue r k s).1.calls ≡ s.calls
  Silent-continue (ok a) s = (h a).same_calls s
  Silent-continue (err e) s = refl
  Silent-continue panic s = refl

  Silent-bind : {m : Exec (Recorded W) A} → Silent m → Silent (m >>= k)
  Silent-bind {m} hm = record {
    same_calls = λ s. Silent-continue (m s).0 (m s).1 ∙ hm.same_calls s;
  }

  Silent-lift : (r : Result A) → Silent (lift r >>= k)
  Silent-lift r = record { same_calls = λ s. Silent-continue r s }

creations_in :
    (address : Option String) (interfaces : List NetworkInterface) (calls : List Call)
    → creations (registration_in address interfaces ++ calls) ≡ creations calls
creations_in none interfaces calls = refl
creations_in (some _) [] calls = refl
creations_in (some _) (_ ∷ _) calls = refl

module _ {W : Type 0} (libs : Libraries) (keys : CapiLabels) (kube : Kube W) (client : Client W)
    (scope : MachineScope W) where
  creations_due :
      (ym : YandexMachine) (r : Result Instance) (calls : List Call)
      → creations (due_registration libs keys kube client scope ym r ++ calls) ≡ creations calls
  creations_due ym (ok vm) calls = elim (Bool-cases (vm.status == status_running)) [
    | inr other ↦ rw other refl
    | inl runs ↦ elim (Bool-cases (libs.is_control_plane_machine scope.machine)) [
      | inr worker ↦ rw (runs, worker) refl
      | inl cp ↦
          rw (runs, cp) (creations_in (only_address vm.interfaces) ym.spec.network_interfaces calls)
    ]
  ]
  creations_due ym (err e) calls = refl
  creations_due ym panic calls = refl

  -- `Reconcile` over the cloud that notes its calls.
  abbrev pub run : MachineState (Recorded W) → MachineState (Recorded W)
  run s = (reconcile libs keys (recording_kube kube) (recording client) (recorded_scope scope) s).1

  pub run_keeps :
      (s : MachineState (Recorded W))
      → get_instance_id s.yandex_machine ≢ ""
      → (get_instance_id (run s).yandex_machine ≡ get_instance_id s.yandex_machine)
        × (creations (run s).world.calls ≡ creations s.world.calls)
  run_keeps s h =
      let (r, w) = client.compute_get (get_instance_id s.yandex_machine) s.world.world in
      (
        get_instance_id_of_spec (run s).yandex_machine s.yandex_machine (
            reconcile_keeps_instance libs keys (recording_kube kube) (recording client)
              (recorded_scope scope) s.yandex_machine s.world h),
        ap creations (
              reconcile_existing_calls libs keys kube client scope s.yandex_machine s.world.world w
                s.world.calls r h refl)
            ∙ creations_due s.yandex_machine r s.world.calls,
      )

  Silent-secret_value :
      (ym : YandexMachine) (r : Result (Map String))
      → Silent (secret_value (recording_kube kube) (recorded_scope scope) ym r)
  unfolding secret_value
  Silent-secret_value ym (ok secret) = record { same_calls = λ s. ground arith }
  Silent-secret_value ym (err e) = record { same_calls = λ s. refl }
  Silent-secret_value ym panic = record { same_calls = λ s. refl }

  Silent-get_bootstrap_data :
      (ym : YandexMachine)
      → Silent (get_bootstrap_data (recording_kube kube) (recorded_scope scope) ym)
  unfolding get_bootstrap_data
  Silent-get_bootstrap_data ym =
      Silent-lift
        (λ name. record {
          same_calls = λ s.
              let (r, w) =
                kube.get_secret (record { namespace = ym.namespace; name = name }) s.world in
              (Silent-secret_value ym r).same_calls (record s { world = w });
        })
        (deref scope.machine.data_secret_name)

  Silent-get_instance_req :
      (ym : YandexMachine)
      → Silent (get_instance_req libs keys (recording_kube kube) (recorded_scope scope) ym)
  unfolding get_instance_req
  Silent-get_instance_req ym =
      Silent-bind
        (λ bootstrap_data.
          Silent-lift
            (λ memory.
              Silent-lift
                (λ disk.
                  Silent-lift
                    (λ size.
                      Silent-lift
                        (λ zone_id.
                          Silent-lift
                            (λ platform_id.
                              Silent-lift (λ type_id. record { same_calls = λ s. refl })
                                (deref disk.type_id))
                            (deref ym.spec.platform_id))
                        (deref ym.spec.zone_id))
                    (parsed disk_size_unparsed (libs.as_int64 disk.size)))
                (deref ym.spec.boot_disk))
            (parsed memory_unparsed (libs.as_int64 ym.spec.resources.memory)))
        (Silent-get_bootstrap_data ym)

  creations_requested :
      (r : Result CreateInstanceRequest) (s s' : Recorded W) (id : String)
      → continue r (λ req. (recording client).compute_create req) s ≡ (ok id, s')
      → creations s'.calls ≡ suc (creations s.calls)
  creations_requested (ok req) s s' id e =
      ap (λ (p : Result String × Recorded W). creations p.1.calls) (sym e)
  creations_requested (err x) s s' id e = absurd (cc)
  creations_requested panic s s' id e = absurd (cc)

  -- An instance that is created was asked for once.
  creations_created :
      (ym : YandexMachine) (s s' : Recorded W) (id : String)
      → create_compute_instance libs keys
          (recording_kube kube)
          (recording client)
          (recorded_scope scope)
          ym
          s
        ≡ (ok id, s')
      → creations s'.calls ≡ suc (creations s.calls)
  unfolding create_compute_instance
  creations_created ym s s' id e =
      let (r, s₁) = get_instance_req libs keys (recording_kube kube) (recorded_scope scope) ym s in
      creations_requested r s₁ s' id e
      ∙ ap (λ calls. suc (creations calls)) ((Silent-get_instance_req ym).same_calls s)

  -- The run that creates an instance asks for it once, and notes its ID.
  pub reconcile_creates_once :
      (ym : YandexMachine) (before after : Recorded W) (id : String)
      → get_instance_id ym ≡ ""
      → id ≢ ""
      → create_compute_instance libs keys
          (recording_kube kube)
          (recording client)
          (recorded_scope scope)
          ym
          before
        ≡ (ok id, after)
      → (get_instance_id (run (record { world = before; yandex_machine = ym })).yandex_machine ≡ id)
        × (creations (run (record { world = before; yandex_machine = ym })).world.calls
            ≡ suc (creations before.calls))
  reconcile_creates_once ym before after id none_yet named created =
      let noted = (get_instance_id-set_provider_id id ym).0 in
      let start : MachineState (Recorded W) = record {
        world = after;
        yandex_machine = set_provider_id id ym;
      } in
      let same =
        ap (λ (p : Result (Unit {0}) × MachineState (Recorded W)). p.1)
          (reconcile_created libs keys (recording_kube kube) (recording client)
            (recorded_scope scope) ym before id after none_yet named created) in
      let kept = run_keeps start (λ e. named (sym noted ∙ e)) in
      (
        ap (λ (s : MachineState (Recorded W)). get_instance_id s.yandex_machine) same
            ∙ kept.0
            ∙ noted,
        ap (λ (s : MachineState (Recorded W)). creations s.world.calls) same
            ∙ kept.1
            ∙ creations_created ym before after id created,
      )
