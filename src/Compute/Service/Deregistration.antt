-- ===== src/Compute/Service/Deregistration.antt =====
-- What the deregistration of a machine asks of the load balancer.
use cluster_api_provider_yan.Prelude.{◌≡◌, refl, List, [], ◌∷◌, ◌++◌, arith, if◌then◌else◌}
use cluster_api_provider_yan.Prelude.{Bool-cases, inl, inr}
use cluster_api_provider_yan.Prelude.Lists.{List-cases}
use cluster_api_provider_yan.Exec.{Result, ok, panic, is_ok}
use cluster_api_provider_yan.Api.Machine.{YandexMachine, NodeAddress, NetworkInterface}
use cluster_api_provider_yan.Cloud.{Client, Balancer}
use cluster_api_provider_yan.Cloud.Recording.{
  Call, Recorded, recording, recording_balancer, recording_kube, deregister_target,
}
use cluster_api_provider_yan.Kube.{Kube, Libraries}
use cluster_api_provider_yan.Scope.Machine.{MachineScope, MachineState}
use cluster_api_provider_yan.Scope.Labels.{CapiLabels}
use cluster_api_provider_yan.Compute.Service.{deregister_control_plane, deregister_if_control_plane}

-- The same scope, whose load balancer notes its calls.
abbrev pub recorded_scope : {W : Type 0} → MachineScope W → MachineScope (Recorded W)
recorded_scope scope = record {
  cluster = scope.cluster;
  load_balancer = recording_balancer scope.load_balancer;
  machine = scope.machine;
  original = scope.original;
}

-- What a deregistration asks of the load balancer and what it is answered, from the machine's
-- addresses and interfaces: a machine with no address is not registered.
abbrev pub deregistration :
    {W : Type 0}
    → Balancer W
    → W
    → List NodeAddress
    → List NetworkInterface
    → Result (Unit {0}) × List Call
deregistration lb w [] nis = (ok tt, [])
deregistration lb w (a ∷ _) [] = (panic, [])
deregistration lb w (a ∷ _) (ni ∷ _) =
    ((lb.remove_target a.address ni.subnet_id w).0, deregister_target a.address ni.subnet_id ∷ [])

module _ {W : Type 0} (libs : Libraries) (keys : CapiLabels) (kube : Kube W) (client : Client W)
    (scope : MachineScope W) where
  -- Only a control plane is deregistered.
  abbrev pub due_deregistration : YandexMachine → W → Result (Unit {0}) × List Call
  due_deregistration ym w =
      if libs.is_control_plane_machine scope.machine
      then deregistration scope.load_balancer w ym.status.addresses ym.spec.network_interfaces
      else (ok tt, [])

  abbrev pub recorded : W → List Call → YandexMachine → MachineState (Recorded W)
  recorded w calls ym = record { world = record { world = w; calls = calls }; yandex_machine = ym }

  abbrev pub deregister_run :
      W → List Call → YandexMachine → Result (Unit {0}) × MachineState (Recorded W)
  deregister_run w calls ym =
      deregister_if_control_plane libs keys (recording_kube kube) (recording client)
        (recorded_scope scope) (recorded w calls ym)

  pub deregister_calls :
      (w : W) (calls : List Call) (ym : YandexMachine)
      → (is_ok (deregister_run w calls ym).0 ≡ is_ok (due_deregistration ym w).0)
        × ((deregister_run w calls ym).1.world.calls ≡ (due_deregistration ym w).1 ++ calls)
  unfolding deregister_if_control_plane deregister_control_plane
  deregister_calls w calls ym = elim (Bool-cases (libs.is_control_plane_machine scope.machine)) [
    | inr worker ↦ rw worker (refl, refl)
    | inl cp ↦ elim (List-cases ym.status.addresses) [
      | inl none_known ↦ rw (cp, none_known) (refl, refl)
      | inr (a, more, ha) ↦ elim (List-cases ym.spec.network_interfaces) [
        | inl no_interface ↦ rw (cp, ha, no_interface) (refl, refl)
        | inr (ni, nis, hn) ↦ rw (cp, ha, hn) (ground arith, ground arith)
      ]
    ]
  ]
