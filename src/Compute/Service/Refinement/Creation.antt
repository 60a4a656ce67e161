-- ===== src/Compute/Service/Refinement/Creation.antt =====
-- The creation of an instance over two clients and two API servers.
use cluster_api_provider_yan.Prelude.{String, arith}
use cluster_api_provider_yan.Prelude.Lists.{Map}
use cluster_api_provider_yan.Exec.{Result, ok, err, panic, deref}
use cluster_api_provider_yan.Api.Machine.{YandexMachine}
use cluster_api_provider_yan.Cloud.{Client, Balancer}
use cluster_api_provider_yan.Cloud.Refinement.{
  Refines, RefinesClient, bind-Refines, pure-Refines, lift-Refines, raise-Refines, fault-Refines,
  inspect-Refines,
}
use cluster_api_provider_yan.Kube.{Machine, Kube, Libraries}
use cluster_api_provider_yan.Kube.Refinement.{RefinesKube}
use cluster_api_provider_yan.Scope.Cluster.{ClusterScope}
use cluster_api_provider_yan.Scope.Labels.{CapiLabels}
use cluster_api_provider_yan.Scope.InstanceRequest.{get_instance_req}
use cluster_api_provider_yan.Scope.Machine.{MachineScope, secret_value, get_bootstrap_data}
use cluster_api_provider_yan.Compute.Service.{create_compute_instance}
use cluster_api_provider_yan.Exec.Errors.{memory_unparsed, disk_size_unparsed}
use cluster_api_provider_yan.Scope.InstanceRequest.{parsed}
use cluster_api_provider_yan.Compute.Service.Refinement.{
  RefinesBalancer, detailed_scope, abstract_scope,
}

module _ {S W : Type 0} (view : S → W) (libs : Libraries) (keys : CapiLabels) {kube : Kube S}
    {same_kube : Kube W} (L : RefinesKube view kube same_kube) {detailed : Client S}
    {abstract : Client W} (R : RefinesClient view detailed abstract) (cluster : ClusterScope)
    (machine : Machine) (original : YandexMachine) {balancer : Balancer S}
    {same_balancer : Balancer W} (B : RefinesBalancer view balancer same_balancer) where
  abbrev d : MachineScope S
  d = detailed_scope view cluster machine original B

  abbrev a : MachineScope W
  a = abstract_scope view cluster machine original B

  secret-Refines :
      (ym : YandexMachine) (r : Result (Map String))
      → Refines view (secret_value kube d ym r) (secret_value same_kube a ym r)
  unfolding secret_value
  secret-Refines ym (ok secret) = record {
    same_result = λ s. ground arith;
    same_world = λ s. ground arith;
  }
  secret-Refines ym (err e) = raise-Refines view _
  secret-Refines ym panic = fault-Refines view

  bootstrap-Refines :
      (ym : YandexMachine)
      → Refines view (get_bootstrap_data kube d ym) (get_bootstrap_data same_kube a ym)
  unfolding get_bootstrap_data
  bootstrap-Refines ym =
      bind-Refines view
        (λ name.
          inspect-Refines view (secret-Refines ym)
            (L.get_secret (record { namespace = ym.namespace; name = name })))
        (lift-Refines view (deref machine.data_secret_name))

  request-Refines :
      (ym : YandexMachine)
      → Refines view
          (get_instance_req libs keys kube d ym)
          (get_instance_req libs keys same_kube a ym)
  unfolding get_instance_req
  request-Refines ym =
      bind-Refines view
        (λ bootstrap_data.
          bind-Refines view
            (λ memory.
              bind-Refines view
                (λ disk.
                  bind-Refines view
                    (λ size.
                      bind-Refines view
                        (λ zone_id.
                          bind-Refines view
                            (λ platform_id.
                              bind-Refines view (λ type_id. pure-Refines view _)
                                (lift-Refines view (deref disk.type_id)))
                            (lift-Refines view (deref ym.spec.platform_id)))
                        (lift-Refines view (deref ym.spec.zone_id)))
                    (lift-Refines view (parsed disk_size_unparsed (libs.as_int64 disk.size))))
                (lift-Refines view (deref ym.spec.boot_disk)))
            (lift-Refines view (parsed memory_unparsed (libs.as_int64 ym.spec.resources.memory))))
        (bootstrap-Refines ym)

  pub create-Refines :
      (ym : YandexMachine)
      → Refines view
          (create_compute_instance libs keys kube detailed d ym)
          (create_compute_instance libs keys same_kube abstract a ym)
  unfolding create_compute_instance
  create-Refines ym = bind-Refines view (λ req. R.compute_create req) (request-Refines ym)
