-- ===== src/Scope/Machine.antt =====
-- internal/pkg/cloud/scope/machine.go, and internal/pkg/cloud/ycerrors/errors.go
pub mod ProviderId
use cluster_api_provider_yan.Prelude.{
  String, ◌<>◌, Bool, true, ◌&&◌, Option, none, some, List, ◌∷◌, eqb,
}
use cluster_api_provider_yan.Prelude.Lists.{Map, lookup}
use cluster_api_provider_yan.Prelude.Text.{trim_prefix}
use cluster_api_provider_yan.Exec.{
  Result, ok, err, panic, Exec, pure, raise, fault, lift, deref, inspect, on_error, ◌>>=◌, ◌>>◌,
}
use cluster_api_provider_yan.Exec.Errors.{
  Error, wrapped, bootstrap_secret, patch_helper, secret_value_missing,
}
use cluster_api_provider_yan.Api.Conditions.{Mark}
use cluster_api_provider_yan.Api.Machine.{
  InstanceStatus, NodeAddress, FailureMessage, FailureReason, YandexMachineStatus, YandexMachine,
}
use cluster_api_provider_yan.Cloud.{Balancer}
use cluster_api_provider_yan.Kube.{Machine, Kube, Libraries}
use cluster_api_provider_yan.Scope.Cluster.{ClusterScope, required, required_interface}

-- The cluster that the machine belongs to (`ClusterGetter`), its load balancer and the owner.
pub record MachineScope (W : Type 0) : Type 0 where
  pub cluster : ClusterScope
  pub load_balancer : Balancer W
  pub machine : Machine
  -- the object as the patch helper saw it first
  pub original : YandexMachine

-- The state of the machine controller: the outside world, and the object that it may change.
pub record MachineState (W : Type 0) : Type 0 where
  pub world : W
  pub yandex_machine : YandexMachine

-- `MachineScopeParams`, whose fields are pointers and interfaces: `none` and `false` are nil.
pub record MachineScopeParams (W : Type 0) : Type 0 where
  pub client : Bool
  pub cluster_getter : ClusterScope
  pub machine : Option Machine
  pub yandex_machine : Option YandexMachine
  pub load_balancer : Option (Balancer W)

-- `NewMachineScope`
unfoldable pub new_machine_scope :
    {W : Type 0} → Kube W → MachineScopeParams W → Exec W (MachineScope W)
new_machine_scope kube params = do
  lift (required_interface "Client" params.client)
  machine ← lift (required "Machine" params.machine)
  yandex_machine ← lift (required "YandexMachine" params.yandex_machine)
  load_balancer ← lift (required "LoadBalancer" params.load_balancer)
  on_error (kube.new_machine_helper yandex_machine) (λ e. raise (wrapped patch_helper e))
  pure (record {
    cluster = params.cluster_getter;
    load_balancer = load_balancer;
    machine = machine;
    original = yandex_machine;
  })

-- A call that changes the outside world alone.
abbrev pub on_world : {W A : Type 0} → Exec W A → Exec (MachineState W) A
on_world m s = let (r, w) = m s.world in (r, record s { world = w })

module _ {W : Type 0} where
  abbrev update_status :
      (YandexMachineStatus → YandexMachineStatus) → MachineState W → MachineState W
  update_status f s =
      let ym = s.yandex_machine in record s { yandex_machine = record ym { status = f ym.status } }

  abbrev pub set_ready : MachineState W → MachineState W
  set_ready = update_status (λ status. record status { ready = true })

  abbrev pub set_addresses : List NodeAddress → MachineState W → MachineState W
  set_addresses v = update_status (λ status. record status { addresses = v })

  abbrev pub set_instance_status : InstanceStatus → MachineState W → MachineState W
  set_instance_status v = update_status (λ status. record status { instance_status = some v })

  abbrev pub set_failure_reason : FailureReason → MachineState W → MachineState W
  set_failure_reason v = update_status (λ status. record status { failure_reason = some v })

  abbrev pub set_failure_message : FailureMessage → MachineState W → MachineState W
  set_failure_message v = update_status (λ status. record status { failure_message = some v })

  -- `conditions.MarkTrue` and its kin on the machine object
  abbrev pub mark : Mark → MachineState W → MachineState W
  mark m = update_status (λ status. record status { conditions = m ∷ status.conditions })

abbrev pub provider_id_prefix : String
provider_id_prefix = "yandex://"

unfoldable pub get_provider_id : YandexMachine → String
get_provider_id ym = elim ym.spec.provider_id [ none ↦ "" | some id ↦ id ]

unfoldable pub set_provider_id : String → YandexMachine → YandexMachine
set_provider_id instance_id ym =
    let spec = ym.spec in
    record ym { spec = record spec { provider_id = some (provider_id_prefix <> instance_id) } }

unfoldable pub parse_provider_id : String → String
parse_provider_id id = trim_prefix id provider_id_prefix

unfoldable pub get_instance_id : YandexMachine → String
get_instance_id ym = parse_provider_id (get_provider_id ym)

module _ (libs : Libraries) where
  abbrev pub is_control_plane : {W : Type 0} → MachineScope W → Bool
  is_control_plane m = libs.is_control_plane_machine m.machine

  -- `ycerrors.IsNotFound`, of an error that is not nil
  abbrev pub is_not_found : Error → Bool
  is_not_found e = let (code, known) = libs.from_error e in known && eqb code libs.not_found_code

module _ {W : Type 0} (kube : Kube W) (scope : MachineScope W) where
  -- `PatchObject`, which `Close` calls too
  abbrev pub patch_object : Exec (MachineState W) (Unit {0})
  patch_object s = on_world (kube.patch_machine scope.original s.yandex_machine) s

  unfoldable pub secret_value : YandexMachine → Result (Map String) → Exec W String
  secret_value ym (ok data') = elim (lookup "value" data') [
    | none ↦ raise secret_value_missing
    | some value ↦ pure value
  ]
  secret_value ym (err e) = raise (wrapped (bootstrap_secret ym.namespace ym.name) e)
  secret_value ym panic = fault

  unfoldable pub get_bootstrap_data : YandexMachine → Exec W String
  unfolding secret_value
  get_bootstrap_data ym = do
    name ← lift (deref scope.machine.data_secret_name)
    inspect (kube.get_secret (record { namespace = ym.namespace; name = name })) (secret_value ym)
