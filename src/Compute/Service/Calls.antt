-- ===== src/Compute/Service/Calls.antt =====
-- The calls that `Delete` of the compute service makes, and when it reports a deletion.
use cluster_api_provider_yan.Prelude.{
  String, ◌==◌, ◌≡◌, ◌≢◌, ◌↔◌, sym, ◌⊎◌, refl, ◌∙◌, true, List, ◌∷◌, ◌++◌, arith, eq_iff,
  if◌then◌else◌, Bool,
}
use cluster_api_provider_yan.Prelude.{Bool-cases, inl, inr}
use cluster_api_provider_yan.Prelude.Text.{ne_test}
use cluster_api_provider_yan.Exec.{Result, ok, err, panic, is_ok}
use cluster_api_provider_yan.Exec.Errors.{Error}
use cluster_api_provider_yan.Api.Machine.{YandexMachine, status_deleting}
use cluster_api_provider_yan.Cloud.{Client}
use cluster_api_provider_yan.Cloud.Messages.{Instance}
use cluster_api_provider_yan.Cloud.Recording.{
  Call, Recorded, recording, recording_kube, delete_instance,
}
use cluster_api_provider_yan.Kube.{Kube, Libraries}
use cluster_api_provider_yan.Scope.Machine.{
  MachineScope, MachineState, get_instance_id, is_not_found, set_instance_status,
}
use cluster_api_provider_yan.Scope.Labels.{CapiLabels}
use cluster_api_provider_yan.Compute.Service.Deregistration.{
  recorded, recorded_scope, due_deregistration, deregister_calls,
}
use cluster_api_provider_yan.Compute.Service.{
  delete, after_delete_get, deregister_if_control_plane, delete_existing, delete_missing,
}

module _ {W : Type 0} (libs : Libraries) (keys : CapiLabels) (kube : Kube W) (client : Client W)
    (scope : MachineScope W) where
  -- The instance is deleted where its deregistration succeeds.
  existing_calls :
      (id : String) (vm : Instance) (s : MachineState (Recorded W))
      (r : Result (Unit {0}) × MachineState (Recorded W))
      → vm.status ≢ status_deleting
      → deregister_if_control_plane libs keys
          (recording_kube kube)
          (recording client)
          (recorded_scope scope)
          (set_instance_status vm.status s)
        ≡ r
      → (delete_existing libs keys
          (recording_kube kube)
          (recording client)
          (recorded_scope scope)
          id
          vm
          s).1.world.calls
        ≡ (if is_ok r.0 then delete_instance id ∷ r.1.world.calls else r.1.world.calls)
  unfolding delete_existing
  existing_calls id vm s (ok _, s') d e = rw (ne_test _ _ d, e) (ground arith)
  existing_calls id vm s (err _, s') d e = rw (ne_test _ _ d, e)
  existing_calls id vm s (panic, s') d e = rw (ne_test _ _ d, e)

  going_on :
      (id : String) (vm : Instance) (s : MachineState (Recorded W))
      (r : Result (Unit {0}) × MachineState (Recorded W))
      → vm.status ≢ status_deleting
      → deregister_if_control_plane libs keys
          (recording_kube kube)
          (recording client)
          (recorded_scope scope)
          (set_instance_status vm.status s)
        ≡ r
      → (delete_existing libs keys
          (recording_kube kube)
          (recording client)
          (recorded_scope scope)
          id
          vm
          s).0
        ≢ ok true
  unfolding delete_existing
  going_on id vm s (ok _, s') d e = rw (ne_test _ _ d, e) (ground arith)
  going_on id vm s (err _, s') d e = rw (ne_test _ _ d, e) (ground arith)
  going_on id vm s (panic, s') d e = rw (ne_test _ _ d, e) (ground arith)

  existing_not_deleted :
      (id : String) (vm : Instance) (s : MachineState (Recorded W))
      (r : Result (Unit {0}) × MachineState (Recorded W))
      → deregister_if_control_plane libs keys
          (recording_kube kube)
          (recording client)
          (recorded_scope scope)
          (set_instance_status vm.status s)
        ≡ r
      → (delete_existing libs keys
          (recording_kube kube)
          (recording client)
          (recorded_scope scope)
          id
          vm
          s).0
        ≢ ok true
  unfolding delete_existing
  existing_not_deleted id vm s r e h = elim (Bool-cases (vm.status == status_deleting)) [
    | inl going ↦ cc (rw going at h)
    | inr d ↦
        going_on id vm s r (λ same. absurd (ground (arith, eq_iff vm.status status_deleting))) e h
  ]

  missing_result :
      (s : MachineState (Recorded W)) (r : Result (Unit {0}) × MachineState (Recorded W))
      → deregister_if_control_plane libs keys
          (recording_kube kube)
          (recording client)
          (recorded_scope scope)
          s
        ≡ r
      → let d =
          delete_missing libs keys
            (recording_kube kube)
            (recording client)
            (recorded_scope scope)
            s in
        ((d.0 ≡ ok true) ↔ (is_ok r.0 ≡ true)) × (d.1 ≡ r.1)
  unfolding delete_missing
  missing_result s (ok _, s') e = rw e ((λ _. refl, λ _. refl), refl)
  missing_result s (err _, s') e = rw e (ground arith, refl)
  missing_result s (panic, s') e = rw e (ground arith, refl)

  module _ (ym : YandexMachine) (w : W) (calls : List Call) where
    abbrev pub delete_run : Result Bool × MachineState (Recorded W)
    delete_run =
        delete libs keys (recording_kube kube) (recording client) (recorded_scope scope)
          (recorded libs keys kube client scope w calls ym)

    abbrev pub delete_lookup : Result Instance × W
    delete_lookup = client.compute_get (get_instance_id ym) w

    delete_found :
        (r : Result Instance) (w₁ : W)
        → get_instance_id ym ≢ ""
        → delete_lookup ≡ (r, w₁)
        → delete_run
          ≡ after_delete_get libs keys
              (recording_kube kube)
              (recording client)
              (recorded_scope scope)
              (get_instance_id ym)
              r
              (recorded libs keys kube client scope w₁ calls ym)
    unfolding delete
    delete_found r w₁ h l = rw (ne_test _ _ h, l)

    -- Where the lookup of a machine's instance finds one that is not being deleted, `Delete` first
    -- asks for the deregistration that is due, of a control plane that has an address, and asks for
    -- the deletion of the instance exactly if that was not refused; it asks for nothing else.
    pub delete_found_calls :
        (vm : Instance) (w₁ : W)
        → get_instance_id ym ≢ ""
        → delete_lookup ≡ (ok vm, w₁)
        → vm.status ≢ status_deleting
        → delete_run.1.world.calls ≡ (
            let (r, due) = due_deregistration libs keys kube client scope ym w₁ in
            if is_ok r then delete_instance (get_instance_id ym) ∷ (due ++ calls) else due ++ calls)
    delete_found_calls vm w₁ h l d =
        let noted =
          (set_instance_status vm.status
            (recorded libs keys kube client scope w₁ calls ym)).yandex_machine in
        let (returned, made) = deregister_calls libs keys kube client scope w₁ calls noted in
        rw (delete_found (ok vm) w₁ h l) (
          unfold after_delete_get in
          rw (
            existing_calls (get_instance_id ym) vm
                (recorded libs keys kube client scope w₁ calls ym) _ d refl,
            returned,
            made,
          ))

    by_lookup :
        (r : Result Instance) (w₁ : W)
        → ((after_delete_get libs keys
              (recording_kube kube)
              (recording client)
              (recorded_scope scope)
              (get_instance_id ym)
              r
              (recorded libs keys kube client scope w₁ calls ym)).0
            ≡ ok true)
          ↔ ((e : Error) × (r ≡ err e)
              × (is_not_found libs e ≡ true)
              × (is_ok (due_deregistration libs keys kube client scope ym w₁).0 ≡ true))
    unfolding after_delete_get
    by_lookup (ok vm) w₁ = (
      λ h. absurd (existing_not_deleted (get_instance_id ym) vm _ _ refl h),
      λ h. absurd (cc h.1),
    )
    by_lookup (err e) w₁ = elim (Bool-cases (is_not_found libs e)) [
      | inl gone ↦
          let (result, _) =
            missing_result (recorded libs keys kube client scope w₁ calls ym) _ refl in
          let (returned, _) = deregister_calls libs keys kube client scope w₁ calls ym in
          rw gone (λ h. (e, refl, gone, sym returned ∙ result.0 h), λ h. result.1 (returned ∙ h.3))
      | inr known ↦ rw known (λ h. absurd (cc), λ h. absurd (ground (arith, h.1)))
    ]
    by_lookup panic w₁ = (λ h. absurd (cc), λ h. absurd (cc h.1))

    -- `Delete` reports that a machine's instance is deleted exactly if the machine never had one, or
    -- the lookup fails with the code NOT_FOUND and the deregistration that is due is not refused.
    pub delete_deleted_iff :
        (r : Result Instance) (w₁ : W)
        → delete_lookup ≡ (r, w₁)
        → (delete_run.0 ≡ ok true) ↔ (
            (get_instance_id ym ≡ "")
            ⊎ ((e : Error) × (r ≡ err e)
                × (is_not_found libs e ≡ true)
                × (is_ok (due_deregistration libs keys kube client scope ym w₁).0 ≡ true)))
    delete_deleted_iff r w₁ l = elim (Bool-cases (get_instance_id ym == "")) [
      | inl never ↦
          let e = (eq_iff (get_instance_id ym) "").0 never in
          (λ _. inl e, λ _. unfold delete in rw e)
      | inr has ↦
          let h : get_instance_id ym ≢ "" =
            λ e. absurd (ground (arith, eq_iff (get_instance_id ym) "")) in
          let by = by_lookup r w₁ in
          rw (delete_found r w₁ h l)
            (λ t. inr (by.0 t), λ t. elim t [ inl e ↦ absurd (h e) | inr gone ↦ by.1 gone ])
    ]
