-- ===== src/YandexClient/Reconciliation.antt =====
-- The controllers over the client of the SDK, against the requests themselves.
use cluster_api_provider_yan.Prelude.{ℕ}
use cluster_api_provider_yan.Cloud.Refinement.{Refines}
use cluster_api_provider_yan.Kube.{Kube, Libraries, ObjectKey}
use cluster_api_provider_yan.Kube.Refinement.{RefinesKube}
use cluster_api_provider_yan.Metrics.{YcMetrics, Monitored, in_world, world_of}
use cluster_api_provider_yan.Metrics.Transparency.{TakesLabels, in_world-Refines}
use cluster_api_provider_yan.Controllers.ClusterReconciler
use cluster_api_provider_yan.Controllers.MachineReconciler
use cluster_api_provider_yan.Controllers.ClusterReconciler.Refinement as OfClusters
use cluster_api_provider_yan.Controllers.MachineReconciler.Refinement.Request as OfMachines
use cluster_api_provider_yan.Scope.Labels.{CapiLabels}
use cluster_api_provider_yan.YandexClient.Sdk.{Sdk}
use cluster_api_provider_yan.YandexClient.Client.{yandex_client}
use cluster_api_provider_yan.YandexClient.Refinement.{direct_client, yandex_client-Refines}

module _ {W M : Type 0} (kube : Kube W) where
  -- The API server beside the metrics, which its calls do not touch.
  abbrev pub monitored_kube : Kube (Monitored W M)
  monitored_kube = record {
    get_yandex_cluster = λ key. in_world (kube.get_yandex_cluster key);
    get_yandex_machine = λ key. in_world (kube.get_yandex_machine key);
    get_owner_cluster = λ yc. in_world (kube.get_owner_cluster yc);
    get_owner_machine = λ ym. in_world (kube.get_owner_machine ym);
    get_cluster_from_metadata = λ m. in_world (kube.get_cluster_from_metadata m);
    get_secret = λ key. in_world (kube.get_secret key);
    list_machines = λ namespace name. in_world (kube.list_machines namespace name);
    new_cluster_helper = λ yc. in_world (kube.new_cluster_helper yc);
    new_machine_helper = λ ym. in_world (kube.new_machine_helper ym);
    patch_cluster = λ before after. in_world (kube.patch_cluster before after);
    patch_machine = λ before after. in_world (kube.patch_machine before after);
  }

  monitored-RefinesKube : RefinesKube (world_of {M = M}) monitored_kube kube
  monitored-RefinesKube = record {
    get_yandex_cluster = λ key. in_world-Refines (kube.get_yandex_cluster key);
    get_yandex_machine = λ key. in_world-Refines (kube.get_yandex_machine key);
    get_owner_cluster = λ yc. in_world-Refines (kube.get_owner_cluster yc);
    get_owner_machine = λ ym. in_world-Refines (kube.get_owner_machine ym);
    get_cluster_from_metadata = λ m. in_world-Refines (kube.get_cluster_from_metadata m);
    get_secret = λ key. in_world-Refines (kube.get_secret key);
    list_machines = λ namespace name. in_world-Refines (kube.list_machines namespace name);
    new_cluster_helper = λ yc. in_world-Refines (kube.new_cluster_helper yc);
    new_machine_helper = λ ym. in_world-Refines (kube.new_machine_helper ym);
    patch_cluster = λ before after. in_world-Refines (kube.patch_cluster before after);
    patch_machine = λ before after. in_world-Refines (kube.patch_machine before after);
  }

module _ {W M Op Wrapped : Type 0} (om : YcMetrics M) (now : W → ℕ) (T : TakesLabels om)
    (sdk : Sdk W Op Wrapped) (kube : Kube W) (libs : Libraries) where
  -- The whole `Reconcile` of both controllers over `YandexClient` gives the result that it would give
  -- over the requests themselves, and leaves the cloud and the API server as it would then: the
  -- metrics decide nothing, where Prometheus takes the labels of its vectors.
  pub reconcile_request-Refines :
      (keys : CapiLabels) (key : ObjectKey)
      → Refines world_of
          (ClusterReconciler.reconcile_request libs
            (monitored_kube kube)
            (yandex_client om now sdk)
            key)
          (ClusterReconciler.reconcile_request libs kube (direct_client sdk) key)
        × Refines world_of
            (MachineReconciler.reconcile_request libs keys
              (monitored_kube kube)
              (yandex_client om now sdk)
              key)
            (MachineReconciler.reconcile_request libs keys kube (direct_client sdk) key)
  reconcile_request-Refines keys key =
      let server = monitored-RefinesKube kube in
      let client = yandex_client-Refines om now T sdk in
      (
        OfClusters.reconcile_request-Refines world_of libs server client key,
        OfMachines.reconcile_request-Refines world_of libs keys server client key,
      )
