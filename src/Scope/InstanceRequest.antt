-- ===== src/Scope/InstanceRequest.antt =====
-- machine.go: `GetInstanceReq`, the request that creates the instance of a machine.
use cluster_api_provider_yan.Prelude.{
  Bool, true, false, Option, none, some, [], ◌∷◌, map, if◌then◌else◌,
}
use cluster_api_provider_yan.Prelude.Int.{ℤ, pos}
use cluster_api_provider_yan.Exec.{Result, ok, err, Exec, pure, lift, deref, ◌>>=◌}
use cluster_api_provider_yan.Exec.Errors.{Error, memory_unparsed, disk_size_unparsed}
use cluster_api_provider_yan.Api.Machine.{NetworkInterface, Resources, YandexMachine}
use cluster_api_provider_yan.Cloud.Requests.{
  CreateInstanceRequest, NetworkInterfaceSpec, ResourcesSpec, no_nat, one_to_one_nat_ipv4,
}
use cluster_api_provider_yan.Kube.{Kube, Libraries}
use cluster_api_provider_yan.Scope.Cluster.{get_folder_id}
use cluster_api_provider_yan.Scope.Machine.{MachineScope, get_bootstrap_data}
use cluster_api_provider_yan.Scope.Labels.{CapiLabels, get_machine_labels}

-- An optional number that is not set leaves 0 in the message.
abbrev pub or_zero : Option ℤ → ℤ
or_zero none = pos 0
or_zero (some n) = n

-- A public address is asked for where the flag is set and true.
abbrev pub is_public : Option Bool → Bool
is_public none = false
is_public (some b) = b

unfoldable pub network_interface_spec : NetworkInterface → NetworkInterfaceSpec
network_interface_spec ni = record {
  subnet_id = ni.subnet_id;
  primary_v4_address_spec = if is_public ni.has_public_ip then one_to_one_nat_ipv4 else no_nat;
}

unfoldable pub resources_spec : Resources → ℤ → ResourcesSpec
resources_spec r memory = record {
  cores = r.cores;
  memory = memory;
  gpus = or_zero r.gpus;
  core_fraction = or_zero r.core_fraction;
}

-- A quantity that has no `int64` value is an error.
abbrev pub parsed : Error → Option ℤ → Result ℤ
parsed e none = err e
parsed e (some n) = ok n

module _ {W : Type 0} (libs : Libraries) (keys : CapiLabels) (kube : Kube W) where
  unfoldable pub get_instance_req : MachineScope W → YandexMachine → Exec W CreateInstanceRequest
  unfolding network_interface_spec resources_spec
  get_instance_req scope ym = do
    bootstrap_data ← get_bootstrap_data kube scope ym
    memory ← lift (parsed memory_unparsed (libs.as_int64 ym.spec.resources.memory))
    disk ← lift (deref ym.spec.boot_disk)
    size ← lift (parsed disk_size_unparsed (libs.as_int64 disk.size))
    zone_id ← lift (deref ym.spec.zone_id)
    platform_id ← lift (deref ym.spec.platform_id)
    type_id ← lift (deref disk.type_id)
    pure (record {
      folder_id = get_folder_id scope.cluster;
      name = ym.name;
      zone_id = zone_id;
      platform_id = platform_id;
      metadata = ("user-data", bootstrap_data) ∷ [];
      labels = get_machine_labels libs keys scope.cluster ym;
      hostname = ym.name;
      resources_spec = resources_spec ym.spec.resources memory;
      boot_disk_spec = record {
        auto_delete = true;
        type_id = type_id;
        size = size;
        image_id = disk.image_id;
      };
      network_interface_specs = map network_interface_spec ym.spec.network_interfaces;
    })
