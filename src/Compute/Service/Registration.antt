-- ===== src/Compute/Service/Registration.antt =====
-- The calls that `Reconcile` of the compute service makes for a machine that has an instance.
use cluster_api_provider_yan.Prelude.{
  String, Option, none, some, ◌==◌, ◌≡◌, ◌≢◌, refl, List, [], ◌∷◌, ◌++◌, arith, if◌then◌else◌,
  Bool-cases, inl, inr,
}
use cluster_api_provider_yan.Prelude.Lists.{List-cases}
use cluster_api_provider_yan.Prelude.Text.{ne_test}
use cluster_api_provider_yan.Exec.{Result, ok, err, panic}
use cluster_api_provider_yan.Api.Machine.{
  YandexMachine, NodeAddress, NetworkInterface, status_running,
}
use cluster_api_provider_yan.Cloud.{Client}
use cluster_api_provider_yan.Cloud.Messages.{Instance}
use cluster_api_provider_yan.Cloud.Recording.{
  Call, Recorded, recording, recording_kube, register_target,
}
use cluster_api_provider_yan.Kube.{Kube, Libraries}
use cluster_api_provider_yan.Scope.Machine.{
  MachineScope, MachineState, get_instance_id, set_addresses,
}
use cluster_api_provider_yan.Scope.Labels.{CapiLabels}
use cluster_api_provider_yan.Compute.Service.{
  after_get, ensure_instance, get_instance_address, instance_gone, instance_running,
  instance_unknown, reconcile, register_control_plane, register_if_control_plane,
}
use cluster_api_provider_yan.Compute.Service.Deregistration.{recorded_scope}

-- The address of an instance that has exactly one interface, with an address that is not empty.
abbrev pub only_address : List String → Option String
only_address [] = none
only_address (a ∷ []) = if a == "" then none else some a
only_address (_ ∷ _ ∷ _) = none

-- The registration of an address in the subnet of the first interface of the specification.
abbrev pub registration_in : Option String → List NetworkInterface → List Call
registration_in (some address) (ni ∷ _) = register_target address ni.subnet_id ∷ []
registration_in _ _ = []

-- The same of the addresses that are noted in the machine.
abbrev registration_of : List NodeAddress → List NetworkInterface → List Call
registration_of (a ∷ _) (ni ∷ _) = register_target a.address ni.subnet_id ∷ []
registration_of _ _ = []

abbrev registration_at : Result (List NodeAddress) → List NetworkInterface → List Call
registration_at (ok addresses) interfaces = registration_of addresses interfaces
registration_at _ _ = []

address_registered :
    (vm : Instance) (interfaces : List NetworkInterface)
    → registration_at (get_instance_address vm) interfaces
      ≡ registration_in (only_address vm.interfaces) interfaces
unfolding get_instance_address
address_registered vm interfaces = elim (List-cases vm.interfaces) [
  | inl nothing ↦ rw nothing refl
  | inr (a, more, ha) ↦ elim (List-cases more) [
    | inr (b, rest, hb) ↦ rw (ha, hb) refl
    | inl one ↦ elim (Bool-cases (a == "")) [
      | inl empty ↦ rw (ha, one, empty) refl
      | inr address ↦ elim (List-cases interfaces) [
        | inl none_given ↦ rw (ha, one, address, none_given) refl
        | inr (ni, nis, hn) ↦ rw (ha, one, address, hn) refl
      ]
    ]
  ]
]

module _ {W : Type 0} (libs : Libraries) (keys : CapiLabels) (kube : Kube W) (client : Client W)
    (scope : MachineScope W) where
  -- Only a control plane whose instance runs, with one interface that has an address.
  abbrev pub due_registration : YandexMachine → Result Instance → List Call
  due_registration ym (ok vm) =
      if vm.status == status_running
      then if libs.is_control_plane_machine scope.machine
        then registration_in (only_address vm.interfaces) ym.spec.network_interfaces
        else []
      else []
  due_registration ym _ = []

  abbrev recorded : W → List Call → YandexMachine → MachineState (Recorded W)
  recorded w calls ym = record { world = record { world = w; calls = calls }; yandex_machine = ym }

  register_calls :
      (w : W) (calls : List Call) (ym : YandexMachine)
      → (register_if_control_plane libs keys
          (recording_kube kube)
          (recording client)
          (recorded_scope scope)
          (recorded w calls ym)).1.world.calls
        ≡ (if libs.is_control_plane_machine scope.machine
            then registration_of ym.status.addresses ym.spec.network_interfaces
            else [])
          ++ calls
  unfolding register_if_control_plane register_control_plane
  register_calls w calls ym = elim (Bool-cases (libs.is_control_plane_machine scope.machine)) [
    | inr worker ↦ rw worker refl
    | inl cp ↦ elim (List-cases ym.status.addresses) [
      | inl none_known ↦ rw (cp, none_known) refl
      | inr (a, more, ha) ↦ elim (List-cases ym.spec.network_interfaces) [
        | inl no_interface ↦ rw (cp, ha, no_interface) refl
        | inr (ni, nis, hn) ↦ rw (cp, ha, hn) (ground arith)
      ]
    ]
  ]

  running_calls :
      (vm : Instance) (w : W) (calls : List Call) (ym : YandexMachine)
      (r : Result (List NodeAddress))
      → get_instance_address vm ≡ r
      → (instance_running libs keys
          (recording_kube kube)
          (recording client)
          (recorded_scope scope)
          vm
          (recorded w calls ym)).1.world.calls
        ≡ (if libs.is_control_plane_machine scope.machine
            then registration_at r ym.spec.network_interfaces
            else [])
          ++ calls
  unfolding instance_running
  running_calls vm w calls ym (ok addresses) e =
      let noted = (set_addresses addresses (recorded w calls ym)).yandex_machine in
      rw e (ground (arith, register_calls w calls noted))
  running_calls vm w calls ym (err _) e = rw e (ground arith)
  running_calls vm w calls ym panic e = rw e (ground arith)

  after_get_calls :
      (r : Result Instance) (w : W) (calls : List Call) (ym : YandexMachine)
      → (after_get libs keys
          (recording_kube kube)
          (recording client)
          (recorded_scope scope)
          r
          (recorded w calls ym)).1.world.calls
        ≡ due_registration ym r ++ calls
  unfolding after_get instance_gone instance_unknown
  after_get_calls (ok vm) w calls ym = elim (Bool-cases (vm.status == status_running)) [
    | inl runs ↦
        rw (runs, ← address_registered vm ym.spec.network_interfaces)
          (grind (arith, running_calls vm w calls ym (get_instance_address vm) refl))
    | inr other ↦ rw other refl
  ]
  after_get_calls (err e) w calls ym = ground arith
  after_get_calls panic w calls ym = refl

  -- For a machine that has an instance, `Reconcile` creates nothing: where the lookup finds the
  -- instance running, with one interface that has an address, and the machine is a control plane
  -- with an interface in its specification, it asks the load balancer to register that address in
  -- the subnet of the first interface, and otherwise it asks for nothing.
  pub reconcile_existing_calls :
      (ym : YandexMachine) (w w₁ : W) (calls : List Call) (r : Result Instance)
      → get_instance_id ym ≢ ""
      → client.compute_get (get_instance_id ym) w ≡ (r, w₁)
      → (reconcile libs keys
          (recording_kube kube)
          (recording client)
          (recorded_scope scope)
          (recorded w calls ym)).1.world.calls
        ≡ due_registration ym r ++ calls
  unfolding reconcile ensure_instance
  reconcile_existing_calls ym w w₁ calls r h l =
      rw (ne_test _ _ h, l) (after_get_calls r w₁ calls ym)
