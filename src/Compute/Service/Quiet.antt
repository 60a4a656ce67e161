-- ===== src/Compute/Service/Quiet.antt =====
-- Which calls `Reconcile` and `Delete` of the compute service make of a machine that has an
-- instance.
pub mod Operations
use cluster_api_provider_yan.Prelude.{
  String, ◌==◌, Bool, true, false, some, List, [], ◌∷◌, ◌≡◌, ◌≢◌, refl, ap, ◌∙◌, if◌then◌else◌,
}
use cluster_api_provider_yan.Prelude.Text.{ne_test}
use cluster_api_provider_yan.Exec.{Result, ok, err, panic, Exec, modify, lift}
use cluster_api_provider_yan.Exec.Errors.{Error, wrapped, registering, deregistering}
use cluster_api_provider_yan.Api.Machine.{
  NodeAddress, YandexMachine, status_running, status_deleting,
}
use cluster_api_provider_yan.Cloud.{Client}
use cluster_api_provider_yan.Cloud.Messages.{Instance}
use cluster_api_provider_yan.Cloud.Recording.{
  Call, Recorded, create_instance, delete_instance, add_target_call, remove_target_call,
  create_target_group, delete_target_group, create_backend_group, delete_backend_group,
  create_balancer, delete_balancer, register_target, deregister_target, patch_cluster_call,
  patch_machine_call,
}
use cluster_api_provider_yan.Cloud.Quiet.{
  Makes, MakesOnly, MakesOwnCalls, bind-Makes, raise-Makes, fault-Makes, pure-Makes, lift-Makes,
  gets-Makes, modify-Makes, if-Makes, inspect-Makes, on_error-Makes,
}
use cluster_api_provider_yan.Kube.{Kube, Libraries}
use cluster_api_provider_yan.Scope.Labels.{CapiLabels}
use cluster_api_provider_yan.Scope.Machine.{
  MachineScope, MachineState, on_world, get_instance_id, is_not_found, mark, set_instance_status,
  set_addresses,
}
use cluster_api_provider_yan.Scope.Machine.ProviderId.{get_instance_id_of_spec}
use cluster_api_provider_yan.Compute.Service.{
  first_subnet, get_instance_address, register_at, register_control_plane, deregister_at,
  deregister_control_plane, ensure_instance, compute_get, instance_gone, instance_unknown,
  register_if_control_plane, instance_running, after_get, reconcile, deregister_if_control_plane,
  delete_missing, delete_existing, after_delete_get, delete,
}

-- The machine is as it was but for its status, its finalizers and its other metadata.
pub record Unchanged (original ym : YandexMachine) : Type 0 where
  pub same_spec : ym.spec ≡ original.spec
  pub same_name : ym.name ≡ original.name
  pub same_namespace : ym.namespace ≡ original.namespace

-- What may be asked for a machine that has an instance: the instance's deletion and its target's
-- removal where the machine is deleted, its target's addition where it is not, and patches that
-- leave the machine's specification, name and namespace. No instance is asked for, no part of a load
-- balancer is made or deleted, and the cluster object is left alone.
unfoldable pub Permitted : (original : YandexMachine) (deleted : Bool) → Call → Type 0
Permitted original deleted (create_instance req) = ⊥
Permitted original deleted (delete_instance id) = (id ≡ get_instance_id original) × (deleted ≡ true)
Permitted original deleted (add_target_call req) = deleted ≡ false
Permitted original deleted (remove_target_call req) = deleted ≡ true
Permitted original deleted (create_target_group req) = ⊥
Permitted original deleted (delete_target_group id) = ⊥
Permitted original deleted (create_backend_group req) = ⊥
Permitted original deleted (delete_backend_group id) = ⊥
Permitted original deleted (create_balancer req) = ⊥
Permitted original deleted (delete_balancer id) = ⊥
Permitted original deleted (register_target addr subnet) = ⊥
Permitted original deleted (deregister_target addr subnet) = ⊥
Permitted original deleted (patch_cluster_call yc) = ⊥
Permitted original deleted (patch_machine_call ym) = Unchanged original ym

abbrev pub Same : YandexMachine → YandexMachine → Type 0
Same a b = (b.spec ≡ a.spec) × (b.name ≡ a.name) × (b.namespace ≡ a.namespace)

pub still-Unchanged :
    {original a b : YandexMachine} → Unchanged original a → Same a b → Unchanged original b
still-Unchanged k (spec, name, namespace) = record {
  same_spec = spec ∙ k.same_spec;
  same_name = name ∙ k.same_name;
  same_namespace = namespace ∙ k.same_namespace;
}

pub same_id :
    {original ym : YandexMachine}
    → Unchanged original ym
    → get_instance_id ym ≡ get_instance_id original
same_id k = get_instance_id_of_spec _ _ k.same_spec

module _ {W : Type 0} (original : YandexMachine) (P : Call → Type 0) where
  -- The machine is unchanged, and only calls of the kind are made.
  abbrev pub Keeping : {A : Type 0} → Exec (MachineState (Recorded W)) A → Type 0
  Keeping =
      Makes (λ (s : MachineState (Recorded W)). s.world.calls)
        (λ s. Unchanged original s.yandex_machine) P

module _ {W : Type 0} {original : YandexMachine} {P : Call → Type 0} where
  -- A call that reads the machine and changes the world alone.
  pub on_world-Keeping :
      {A : Type 0} (f : YandexMachine → Exec (Recorded W) A)
      → ((ym : YandexMachine) → Unchanged original ym → MakesOnly P (f ym))
      → Keeping original P (λ s. on_world (f s.yandex_machine) s)
  on_world-Keeping f h = record {
    only = λ s k. (h s.yandex_machine k).only s.world tt;
    keeps = λ s k. k;
  }

  -- A change of the machine beside its specification, name and namespace.
  pub modify-Keeping :
      (change : MachineState (Recorded W) → MachineState (Recorded W))
      → ((s : MachineState (Recorded W)) → (change s).world ≡ s.world)
      → ((s : MachineState (Recorded W)) → Same s.yandex_machine (change s).yandex_machine)
      → Keeping original P (modify change)
  modify-Keeping change same kept =
      modify-Makes change (λ s. ap (λ (r : Recorded W). r.calls) (same s))
        (λ s k. still-Unchanged k (kept s))
