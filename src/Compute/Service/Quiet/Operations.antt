-- ===== src/Compute/Service/Quiet/Operations.antt =====
-- `Reconcile` and `Delete` of the compute service, at a machine that has an instance.
use cluster_api_provider_yan.Prelude.{
  String, ◌==◌, Bool, true, false, some, List, [], ◌∷◌, ◌≡◌, ◌≢◌, refl, Bool-cases, inl, inr,
}
use cluster_api_provider_yan.Prelude.Text.{ne_test}
use cluster_api_provider_yan.Exec.{Result, ok, err, panic, modify}
use cluster_api_provider_yan.Exec.Errors.{Error, wrapped, registering, deregistering}
use cluster_api_provider_yan.Api.Conditions.{
  Mark, mark_true, mark_false, severity_error, condition_running, condition_error,
}
use cluster_api_provider_yan.Api.Machine.{
  NodeAddress, YandexMachine, status_running, status_deleting,
}
use cluster_api_provider_yan.Cloud.{Client}
use cluster_api_provider_yan.Cloud.Messages.{Instance}
use cluster_api_provider_yan.Cloud.Recording.{Call, Recorded}
use cluster_api_provider_yan.Cloud.Quiet.{
  here, MakesOnly, MakesOwnCalls, bind-Makes, raise-Makes, fault-Makes, pure-Makes, lift-Makes,
  if-Makes, inspect-Makes, on_error-Makes,
}
use cluster_api_provider_yan.Kube.{Kube, Libraries}
use cluster_api_provider_yan.Scope.Labels.{CapiLabels}
use cluster_api_provider_yan.Scope.Machine.{
  MachineScope, get_instance_id, is_not_found, mark, set_instance_status, set_addresses,
}
use cluster_api_provider_yan.Compute.Service.{
  first_subnet, get_instance_address, register_at, register_control_plane, deregister_at,
  deregister_control_plane, ensure_instance, compute_get, instance_gone, instance_unknown,
  register_if_control_plane, instance_running, after_get, reconcile, deregister_if_control_plane,
  delete_missing, delete_existing, after_delete_get, delete,
}
use cluster_api_provider_yan.Compute.Service.Quiet.{
  Permitted, Keeping, same_id, still-Unchanged, on_world-Keeping, modify-Keeping,
}

module _ {W : Type 0} {original : YandexMachine} {P : Call → Type 0} where
  marked : (m : Mark) → Keeping {W = W} original P (modify (mark m))
  marked m = modify-Keeping (mark m) (λ s. refl) (λ s. (refl, refl, refl))

  status_set : (st : String) → Keeping {W = W} original P (modify (set_instance_status st))
  status_set st = modify-Keeping (set_instance_status st) (λ s. refl) (λ s. (refl, refl, refl))

module _ {W : Type 0} (libs : Libraries) (keys : CapiLabels) (kube : Kube (Recorded W))
    {client : Client (Recorded W)} (original : YandexMachine)
    (scope : MachineScope (Recorded W)) where
  module _ (deleted : Bool) where
    get-Keeping :
        MakesOwnCalls (Permitted original deleted) client
        → Keeping original (Permitted original deleted) (compute_get libs keys kube client scope)
    get-Keeping own = on_world-Keeping _ (λ ym k. own.compute_get (get_instance_id ym))

  module _ (own : MakesOwnCalls (Permitted original false) client)
      (add : (addr subnet : String)
        → MakesOnly (Permitted original false) (scope.load_balancer.add_target addr subnet))
      (present : get_instance_id original ≢ "") where
    ensure-Keeping :
        Keeping original (Permitted original false) (ensure_instance libs keys kube client scope)
    unfolding ensure_instance
    ensure-Keeping = record {
      only = λ s k. rw (same_id k, ne_test (get_instance_id original) "" present) here;
      keeps = λ s k. rw (same_id k, ne_test (get_instance_id original) "" present) k;
    }

    at-MakesOnly :
        (ym : YandexMachine) (addresses : List NodeAddress)
        → MakesOnly (Permitted original false) (register_at scope ym addresses)
    unfolding register_at
    at-MakesOnly ym [] = raise-Makes _
    at-MakesOnly ym (a ∷ _) =
        bind-Makes (lift-Makes (first_subnet ym.spec.network_interfaces))
          (λ subnet. add a.address subnet)

    register_if-Keeping :
        Keeping original
          (Permitted original false)
          (register_if_control_plane libs keys kube client scope)
    unfolding register_if_control_plane register_control_plane
    register_if-Keeping =
        if-Makes (libs.is_control_plane_machine scope.machine)
          (on_error-Makes (on_world-Keeping _ (λ ym k. at-MakesOnly ym ym.status.addresses))
            (λ e. raise-Makes (wrapped registering e)))
          (pure-Makes tt)

    running-Keeping :
        (vm : Instance)
        → Keeping original
            (Permitted original false)
            (instance_running libs keys kube client scope vm)
    unfolding instance_running
    running-Keeping vm =
        bind-Makes
          (on_error-Makes (lift-Makes (get_instance_address vm)) (λ e.
            bind-Makes
              (marked (mark_false condition_running condition_error severity_error (some e)))
              (λ _. raise-Makes e)))
          (λ address.
            bind-Makes
              (modify-Keeping (set_addresses address) (λ s. refl) (λ s. (refl, refl, refl)))
              (λ _. bind-Makes register_if-Keeping (λ _. marked (mark_true condition_running))))

    gone-Keeping :
        (e : Error)
        → Keeping original (Permitted original false) (instance_gone libs keys kube client scope e)
    unfolding instance_gone
    gone-Keeping e = record {
      only = λ s k. here;
      keeps = λ s k. still-Unchanged k (refl, refl, refl);
    }

    unknown-Keeping :
        (e : Error)
        → Keeping original
            (Permitted original false)
            (instance_unknown libs keys kube client scope e)
    unfolding instance_unknown
    unknown-Keeping e = record {
      only = λ s k. here;
      keeps = λ s k. still-Unchanged k (refl, refl, refl);
    }

    after_get-Keeping :
        (r : Result Instance)
        → Keeping original (Permitted original false) (after_get libs keys kube client scope r)
    unfolding after_get
    after_get-Keeping (ok vm) =
        bind-Makes (if-Makes (vm.status == status_running) (running-Keeping vm) (pure-Makes tt))
          (λ _. status_set vm.status)
    after_get-Keeping (err e) = if-Makes (is_not_found libs e) (gone-Keeping e) (unknown-Keeping e)
    after_get-Keeping panic = fault-Makes

    pub reconcile-Keeping :
        Keeping original (Permitted original false) (reconcile libs keys kube client scope)
    unfolding reconcile
    reconcile-Keeping =
        bind-Makes ensure-Keeping (λ _. inspect-Makes (get-Keeping false own) after_get-Keeping)

  module _ (own : MakesOwnCalls (Permitted original true) client)
      (remove : (addr subnet : String)
        → MakesOnly (Permitted original true) (scope.load_balancer.remove_target addr subnet)) where
    from-MakesOnly :
        (ym : YandexMachine) (addresses : List NodeAddress)
        → MakesOnly (Permitted original true) (deregister_at scope ym addresses)
    unfolding deregister_at
    from-MakesOnly ym [] = pure-Makes tt
    from-MakesOnly ym (a ∷ _) =
        bind-Makes (lift-Makes (first_subnet ym.spec.network_interfaces))
          (λ subnet. remove a.address subnet)

    deregister_if-Keeping :
        Keeping original
          (Permitted original true)
          (deregister_if_control_plane libs keys kube client scope)
    unfolding deregister_if_control_plane deregister_control_plane
    deregister_if-Keeping =
        if-Makes (libs.is_control_plane_machine scope.machine)
          (on_error-Makes (on_world-Keeping _ (λ ym k. from-MakesOnly ym ym.status.addresses))
            (λ e. raise-Makes (wrapped deregistering e)))
          (pure-Makes tt)

    existing-Keeping :
        (id : String)
        → id ≡ get_instance_id original
        → (vm : Instance)
        → Keeping original
            (Permitted original true)
            (delete_existing libs keys kube client scope id vm)
    unfolding delete_existing Permitted
    existing-Keeping id same vm = bind-Makes (status_set vm.status) (λ _.
        if-Makes (vm.status == status_deleting) (pure-Makes false) (
          bind-Makes deregister_if-Keeping (λ _.
            bind-Makes (on_world-Keeping _ (λ ym k. own.compute_delete id (same, refl)))
              (λ _. pure-Makes false))))

    looked_up-Keeping :
        (id : String)
        → id ≡ get_instance_id original
        → (r : Result Instance)
        → Keeping original
            (Permitted original true)
            (after_delete_get libs keys kube client scope id r)
    unfolding after_delete_get delete_missing
    looked_up-Keeping id same (ok vm) = existing-Keeping id same vm
    looked_up-Keeping id same (err e) =
        if-Makes (is_not_found libs e) (bind-Makes deregister_if-Keeping (λ _. pure-Makes true))
          (raise-Makes _)
    looked_up-Keeping id same panic = fault-Makes

    pub delete-Keeping :
        Keeping original (Permitted original true) (delete libs keys kube client scope)
    unfolding delete
    delete-Keeping =
        let found = λ (id : String) (same : id ≡ get_instance_id original).
          inspect-Makes (get-Keeping true own) (looked_up-Keeping id same) in
        record {
          only = λ s k. elim (Bool-cases (get_instance_id s.yandex_machine == "")) [
            | inl e ↦ rw e here
            | inr e ↦ rw e ((found _ (same_id k)).only s k)
          ];
          keeps = λ s k. elim (Bool-cases (get_instance_id s.yandex_machine == "")) [
            | inl e ↦ rw e k
            | inr e ↦ rw e ((found _ (same_id k)).keeps s k)
          ];
        }
