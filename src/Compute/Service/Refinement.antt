-- ===== src/Compute/Service/Refinement.antt =====
-- The compute service over two clients, API servers and load balancers, of which the one refine the
-- others.
pub mod Creation
pub mod Operations
use cluster_api_provider_yan.Prelude.{
  String, ◌==◌, Bool, true, false, Option, none, some, List, [], ◌∷◌, refl, ap, arith,
  if◌then◌else◌,
}
use cluster_api_provider_yan.Prelude.Lists.{Map, lookup}
use cluster_api_provider_yan.Exec.{
  Result, ok, err, panic, Exec, pure, modify, lift, raise, ◌>>◌, deref,
}
use cluster_api_provider_yan.Exec.Errors.{Error, wrapped, registering, deregistering}
use cluster_api_provider_yan.Api.Machine.{
  NodeAddress, YandexMachine, status_running, status_deleting,
}
use cluster_api_provider_yan.Api.Cluster.{LoadBalancerStatus}
use cluster_api_provider_yan.Cloud.{Client, Balancer}
use cluster_api_provider_yan.Cloud.Messages.{Instance}
use cluster_api_provider_yan.Cloud.Refinement.{
  Refines, RefinesClient, bind-Refines, pure-Refines, lift-Refines, raise-Refines, fault-Refines,
  if-Refines, modify-Refines, inspect-Refines, on_error-Refines, deferred-Refines,
}
use cluster_api_provider_yan.Kube.{Machine, Kube, Libraries}
use cluster_api_provider_yan.Kube.Refinement.{RefinesKube}
use cluster_api_provider_yan.Scope.Cluster.{ClusterScope}
use cluster_api_provider_yan.Scope.Labels.{CapiLabels}
use cluster_api_provider_yan.Scope.InstanceRequest.{get_instance_req}
use cluster_api_provider_yan.Scope.Machine.{
  MachineScope, MachineState, on_world, get_bootstrap_data, get_instance_id, is_not_found,
  is_control_plane, set_instance_status, set_addresses,
}
use cluster_api_provider_yan.Compute.Service.{
  register_at, register_control_plane, deregister_at, deregister_control_plane,
  create_compute_instance, ensure_instance, compute_get, instance_gone, instance_unknown,
  register_if_control_plane, instance_running, after_get, reconcile, deregister_if_control_plane,
  delete_missing, delete_existing, after_delete_get, delete, first_subnet,
}

-- What the compute service calls of a load balancer.
pub record RefinesBalancer {S W : Type 0} (view : S → W) (detailed : Balancer S)
    (abstract : Balancer W) : Type 0 where
  pub add_target :
      (addr subnet : String)
      → Refines view (detailed.add_target addr subnet) (abstract.add_target addr subnet)
  pub remove_target :
      (addr subnet : String)
      → Refines view (detailed.remove_target addr subnet) (abstract.remove_target addr subnet)

module _ {S W : Type 0} (view : S → W) where
  -- The world that is seen, with the machine as it stands.
  abbrev pub machine_view : MachineState S → MachineState W
  machine_view s = record { world = view s.world; yandex_machine = s.yandex_machine }

  abbrev pub Seen : {A : Type 0} → Exec (MachineState S) A → Exec (MachineState W) A → Type 0
  Seen = Refines machine_view

  -- A call that reads the machine and changes the world alone.
  pub on_world-Refines :
      {A : Type 0} (f : YandexMachine → Exec S A) (g : YandexMachine → Exec W A)
      → ((ym : YandexMachine) → Refines view (f ym) (g ym))
      → Seen (λ s. on_world (f s.yandex_machine) s) (λ s. on_world (g s.yandex_machine) s)
  on_world-Refines f g h = record {
    same_result = λ s. (h s.yandex_machine).same_result s.world;
    same_world = λ s.
        ap (λ w. record { world = w; yandex_machine = s.yandex_machine })
          ((h s.yandex_machine).same_world s.world);
  }

  module _ (cluster : ClusterScope) (machine : Machine) (original : YandexMachine)
      {balancer : Balancer S} {same_balancer : Balancer W}
      (B : RefinesBalancer view balancer same_balancer) where
    abbrev pub detailed_scope : MachineScope S
    detailed_scope = record {
      cluster = cluster;
      load_balancer = balancer;
      machine = machine;
      original = original;
    }

    abbrev pub abstract_scope : MachineScope W
    abstract_scope = record {
      cluster = cluster;
      load_balancer = same_balancer;
      machine = machine;
      original = original;
    }

    at-Refines :
        (ym : YandexMachine) (addresses : List NodeAddress)
        → Refines view
            (register_at detailed_scope ym addresses)
            (register_at abstract_scope ym addresses)
    unfolding register_at
    at-Refines ym [] = raise-Refines view _
    at-Refines ym (a ∷ _) =
        bind-Refines view (λ subnet. B.add_target a.address subnet)
          (lift-Refines view (first_subnet ym.spec.network_interfaces))

    pub register-Refines :
        Seen (register_control_plane detailed_scope) (register_control_plane abstract_scope)
    unfolding register_control_plane
    register-Refines = on_world-Refines _ _ (λ ym. at-Refines ym ym.status.addresses)

    from-Refines :
        (ym : YandexMachine) (addresses : List NodeAddress)
        → Refines view
            (deregister_at detailed_scope ym addresses)
            (deregister_at abstract_scope ym addresses)
    unfolding deregister_at
    from-Refines ym [] = pure-Refines view tt
    from-Refines ym (a ∷ _) =
        bind-Refines view (λ subnet. B.remove_target a.address subnet)
          (lift-Refines view (first_subnet ym.spec.network_interfaces))

    pub deregister-Refines :
        Seen (deregister_control_plane detailed_scope) (deregister_control_plane abstract_scope)
    unfolding deregister_control_plane
    deregister-Refines = on_world-Refines _ _ (λ ym. from-Refines ym ym.status.addresses)
