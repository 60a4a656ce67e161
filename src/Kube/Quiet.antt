-- ===== src/Kube/Quiet.antt =====
-- An API server of which the reads make no call, and a patch makes the one that it is.
use cluster_api_provider_yan.Api.Cluster.{YandexCluster}
use cluster_api_provider_yan.Api.Machine.{YandexMachine}
use cluster_api_provider_yan.Cloud.Quiet.{MakesOnly, here, then_call}
use cluster_api_provider_yan.Cloud.Recording.{
  Call, Recorded, recording_kube, patch_cluster_call, patch_machine_call,
}
use cluster_api_provider_yan.Kube.{Kube, Machine, ObjectKey}

pub record MakesOwnPatches {W : Type 0} (P : Call → Type 0) (kube : Kube (Recorded W))
    : Type 0 where
  pub get_yandex_cluster : (key : ObjectKey) → MakesOnly P (kube.get_yandex_cluster key)
  pub get_owner_cluster : (yc : YandexCluster) → MakesOnly P (kube.get_owner_cluster yc)
  pub get_owner_machine : (ym : YandexMachine) → MakesOnly P (kube.get_owner_machine ym)
  pub get_cluster_from_metadata : (m : Machine) → MakesOnly P (kube.get_cluster_from_metadata m)
  pub new_cluster_helper : (yc : YandexCluster) → MakesOnly P (kube.new_cluster_helper yc)
  pub new_machine_helper : (ym : YandexMachine) → MakesOnly P (kube.new_machine_helper ym)
  pub patch_cluster :
      (before after : YandexCluster)
      → P (patch_cluster_call after)
      → MakesOnly P (kube.patch_cluster before after)
  pub patch_machine :
      (before after : YandexMachine)
      → P (patch_machine_call after)
      → MakesOnly P (kube.patch_machine before after)

pub recording_kube-MakesOwnPatches :
    {W : Type 0} (P : Call → Type 0) (kube : Kube W) → MakesOwnPatches P (recording_kube kube)
recording_kube-MakesOwnPatches P kube = record {
  get_yandex_cluster = λ key. record { only = λ s i. here; keeps = λ s i. i };
  get_owner_cluster = λ yc. record { only = λ s i. here; keeps = λ s i. i };
  get_owner_machine = λ ym. record { only = λ s i. here; keeps = λ s i. i };
  get_cluster_from_metadata = λ m. record { only = λ s i. here; keeps = λ s i. i };
  new_cluster_helper = λ yc. record { only = λ s i. here; keeps = λ s i. i };
  new_machine_helper = λ ym. record { only = λ s i. here; keeps = λ s i. i };
  patch_cluster = λ before after p. record { only = λ s i. then_call _ p here; keeps = λ s i. i };
  patch_machine = λ before after p. record { only = λ s i. then_call _ p here; keeps = λ s i. i };
}
