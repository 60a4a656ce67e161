-- ===== src/Compute/Service/Creation.antt =====
-- `Reconcile` of the compute service creates an instance once, and never forgets it.
use cluster_api_provider_yan.Prelude.{String, ◌≡◌, ◌≢◌, refl, ap, sym, ◌∙◌, arith, eq_iff}
use cluster_api_provider_yan.Exec.{Result, ok, err, panic, continue, inspect}
use cluster_api_provider_yan.Api.Machine.{YandexMachine}
use cluster_api_provider_yan.Scope.Machine.ProviderId.{without_provider_id}
use cluster_api_provider_yan.Cloud.{Client}
use cluster_api_provider_yan.Cloud.Messages.{Instance}
use cluster_api_provider_yan.Kube.{Kube, Libraries}
use cluster_api_provider_yan.Scope.Machine.{
  MachineScope, MachineState, get_instance_id, set_provider_id,
}
use cluster_api_provider_yan.Scope.Machine.ProviderId.{
  get_instance_id-set_provider_id, get_instance_id_of_spec,
}
use cluster_api_provider_yan.Scope.Labels.{CapiLabels}
use cluster_api_provider_yan.Compute.Service.{
  create_compute_instance, ensure_instance, after_get, instance_gone, instance_unknown,
  instance_running, register_if_control_plane, compute_get, reconcile, register_control_plane,
}

module _ {W : Type 0} (libs : Libraries) (keys : CapiLabels) (kube : Kube W) (client : Client W)
    (scope : MachineScope W) where
  -- Once the instance is looked up, the specification stays.
  after_get_spec :
      (r : Result Instance) (s : MachineState W)
      → (after_get libs keys kube client scope r s).1.yandex_machine.spec ≡ s.yandex_machine.spec
  unfolding after_get instance_gone instance_unknown instance_running register_if_control_plane
      register_control_plane
  after_get_spec (ok vm) s = ground arith
  after_get_spec (err e) s = ground arith
  after_get_spec panic s = refl

  -- After an attempt to have an instance, the specification stays.
  lookup_spec :
      (r : Result (Unit {0})) (s : MachineState W)
      → (continue r
          (λ _.
            inspect
              (compute_get libs keys kube client scope)
              (after_get libs keys kube client scope))
          s).1.yandex_machine.spec
        ≡ s.yandex_machine.spec
  lookup_spec (ok _) s =
      let (r, s') = compute_get libs keys kube client scope s in after_get_spec r s'
  lookup_spec (err e) s = refl
  lookup_spec panic s = refl

  ensure_existing :
      (ym : YandexMachine) (w : W)
      → get_instance_id ym ≢ ""
      → ensure_instance libs keys kube client scope (record { world = w; yandex_machine = ym })
        ≡ (ok tt, record { world = w; yandex_machine = ym })
  unfolding ensure_instance
  ensure_existing ym w h = ground (arith, eq_iff (get_instance_id ym) "")

  module _ (ym : YandexMachine) (w : W) where
    abbrev start : MachineState W
    start = record { world = w; yandex_machine = ym }

    abbrev final : YandexMachine
    final = (reconcile libs keys kube client scope start).1.yandex_machine

    final_spec :
        final.spec ≡ (ensure_instance libs keys kube client scope start).1.yandex_machine.spec
    unfolding reconcile
    final_spec = lookup_spec (ensure_instance libs keys kube client scope start).0 _

    -- A machine that has an instance keeps its whole specification in `Reconcile`, its provider ID
    -- included, whatever the calls answer.
    pub reconcile_keeps_instance : get_instance_id ym ≢ "" → final.spec ≡ ym.spec
    reconcile_keeps_instance h =
        final_spec
        ∙ ap (λ (p : Result (Unit {0}) × MachineState W). p.1.yandex_machine.spec)
            (ensure_existing ym w h)

    ensure_created :
        (id : String) (w' : W)
        → get_instance_id ym ≡ ""
        → create_compute_instance libs keys kube client scope ym w ≡ (ok id, w')
        → ensure_instance libs keys kube client scope start
          ≡ (ok tt, record { world = w'; yandex_machine = set_provider_id id ym })
    unfolding ensure_instance
    ensure_created id w' h c = rw (h, c)

    -- The creation of an instance is as if the machine had had it before.
    pub reconcile_created :
        (id : String) (w' : W)
        → get_instance_id ym ≡ ""
        → id ≢ ""
        → create_compute_instance libs keys kube client scope ym w ≡ (ok id, w')
        → reconcile libs keys kube client scope start
          ≡ reconcile libs keys kube client scope
              (record { world = w'; yandex_machine = set_provider_id id ym })
    unfolding reconcile
    reconcile_created id w' h named c =
        let noted = (get_instance_id-set_provider_id id ym).0 in
        ap
          (λ (p : Result (Unit {0}) × MachineState W).
            continue p.0
              (λ _.
                inspect (compute_get libs keys kube client scope)
                  (after_get libs keys kube client scope))
              p.1)
          (ensure_created id w' h c
            ∙ sym (ensure_existing (set_provider_id id ym) w' (λ e. named (sym noted ∙ e))))

    -- Where a machine without an instance has one created, `Reconcile` leaves its ID in the machine,
    -- whatever the later calls answer, an error or a panic included.
    pub reconcile_notes_instance :
        (id : String) (w' : W)
        → get_instance_id ym ≡ ""
        → create_compute_instance libs keys kube client scope ym w ≡ (ok id, w')
        → get_instance_id final ≡ id
    reconcile_notes_instance id w' h c =
        get_instance_id_of_spec final (set_provider_id id ym) (
          final_spec
          ∙ ap (λ (p : Result (Unit {0}) × MachineState W). p.1.yandex_machine.spec)
              (ensure_created id w' h c))
        ∙ (get_instance_id-set_provider_id id ym).0

    -- `Reconcile` changes nothing of the specification but the provider ID.
    pub reconcile_spec : without_provider_id final.spec ≡ without_provider_id ym.spec
    unfolding ensure_instance set_provider_id
    reconcile_spec = ap without_provider_id final_spec ∙ ground arith
