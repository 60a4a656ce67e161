-- ===== src/Startup/Controllers.antt =====
-- `SetupWithManager` of controllers/yandexcluster_controller.go and yandexmachine_controller.go, and
-- `SetupWebhookWithManager` of the webhooks of api/v1alpha1.
use cluster_api_provider_yan.Prelude.{String, List, [], ◌∷◌}
use cluster_api_provider_yan.Exec.{Exec, raise, on_error, ◌>>◌}
use cluster_api_provider_yan.Exec.Errors.{
  wrapped, creating_controller, creating_mapper, watching_clusters,
}
use cluster_api_provider_yan.Startup.{
  Kind, yandex_cluster, yandex_machine, capi_cluster, capi_machine, machine_to_infrastructure,
  yandex_cluster_to_yandex_machines, cluster_to_infrastructure, cluster_to_typed_objects,
  resource_not_paused, cluster_unpaused, cluster_unpaused_and_infrastructure_ready, Watch,
  ControllerOptions, build_controller, make_mapper, watch, complete_webhook, Runtime,
}

-- `GroupVersion`
abbrev pub group : String
group = "infrastructure.cluster.x-k8s.io"

abbrev pub version : String
version = "v1alpha1"

-- The types that are registered with `SchemeBuilder`, file by file.
abbrev pub registered_types : List String
registered_types =
    "YandexCluster" ∷ "YandexClusterList" ∷ "YandexMachine" ∷ "YandexMachineList"
    ∷ "YandexMachineTemplate" ∷ "YandexMachineTemplateList" ∷ []

abbrev pub cluster_controller : ControllerOptions
cluster_controller = record {
  for_kind = yandex_cluster;
  event_filter = resource_not_paused;
  watches = [];
}

abbrev pub clusters_of_cluster_controller : Watch
clusters_of_cluster_controller = record {
  kind = capi_cluster;
  mapper = cluster_to_infrastructure group version "YandexCluster";
  predicates = cluster_unpaused ∷ [];
}

abbrev pub machine_controller : ControllerOptions
machine_controller = record {
  for_kind = yandex_machine;
  event_filter = resource_not_paused;
  watches =
      record {
        kind = capi_machine;
        mapper = machine_to_infrastructure group version "YandexMachine";
        predicates = [];
      }
      ∷ record {
        kind = yandex_cluster;
        mapper = yandex_cluster_to_yandex_machines;
        predicates = [];
      }
      ∷ [];
}

abbrev pub clusters_of_machine_controller : Watch
clusters_of_machine_controller = record {
  kind = capi_cluster;
  mapper = cluster_to_typed_objects yandex_machine;
  predicates = cluster_unpaused_and_infrastructure_ready ∷ [];
}

module _ {W : Type 0} (runtime : Runtime W) where
  unfoldable pub setup_cluster_controller : Exec W (Unit {0})
  setup_cluster_controller = do
    runtime (build_controller cluster_controller)
    runtime (watch yandex_cluster clusters_of_cluster_controller)

  unfoldable pub setup_machine_controller : Exec W (Unit {0})
  setup_machine_controller = do
    on_error (runtime (build_controller machine_controller))
        (λ e. raise (wrapped creating_controller e))
    on_error (runtime (make_mapper yandex_machine)) (λ e. raise (wrapped creating_mapper e))
    on_error (runtime (watch yandex_machine clusters_of_machine_controller))
        (λ e. raise (wrapped watching_clusters e))

  unfoldable pub setup_webhook_with_manager : Kind → Exec W (Unit {0})
  setup_webhook_with_manager kind = runtime (complete_webhook kind)
