-- ===== src/Kube/Refinement.antt =====
-- An API server over a detailed world refines one over what is seen of it.
use cluster_api_provider_yan.Prelude.{String}
use cluster_api_provider_yan.Api.Cluster.{YandexCluster}
use cluster_api_provider_yan.Api.Machine.{YandexMachine}
use cluster_api_provider_yan.Cloud.Refinement.{Refines}
use cluster_api_provider_yan.Kube.{Kube, Machine, ObjectKey}

-- Each call of one API server refines that of another.
pub record RefinesKube {S W : Type 0} (view : S → W) (detailed : Kube S) (abstract : Kube W)
    : Type 0 where
  pub get_yandex_cluster :
      (key : ObjectKey)
      → Refines view (detailed.get_yandex_cluster key) (abstract.get_yandex_cluster key)
  pub get_yandex_machine :
      (key : ObjectKey)
      → Refines view (detailed.get_yandex_machine key) (abstract.get_yandex_machine key)
  pub get_owner_cluster :
      (yc : YandexCluster)
      → Refines view (detailed.get_owner_cluster yc) (abstract.get_owner_cluster yc)
  pub get_owner_machine :
      (ym : YandexMachine)
      → Refines view (detailed.get_owner_machine ym) (abstract.get_owner_machine ym)
  pub get_cluster_from_metadata :
      (m : Machine)
      → Refines view (detailed.get_cluster_from_metadata m) (abstract.get_cluster_from_metadata m)
  pub get_secret :
      (key : ObjectKey) → Refines view (detailed.get_secret key) (abstract.get_secret key)
  pub list_machines :
      (namespace name : String)
      → Refines view (detailed.list_machines namespace name) (abstract.list_machines namespace name)
  pub new_cluster_helper :
      (yc : YandexCluster)
      → Refines view (detailed.new_cluster_helper yc) (abstract.new_cluster_helper yc)
  pub new_machine_helper :
      (ym : YandexMachine)
      → Refines view (detailed.new_machine_helper ym) (abstract.new_machine_helper ym)
  pub patch_cluster :
      (before after : YandexCluster)
      → Refines view (detailed.patch_cluster before after) (abstract.patch_cluster before after)
  pub patch_machine :
      (before after : YandexMachine)
      → Refines view (detailed.patch_machine before after) (abstract.patch_machine before after)
