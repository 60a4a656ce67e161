-- ===== src/Scope/Labels.antt =====
-- internal/pkg/cloud/scope/labels.go: the labels of an instance.
use Prim.Native.String.{slice, len}
use cluster_api_provider_yan.Prelude.{
  ℕ, String, ◌==◌, none, some, List, [], ◌∷◌, leb, if◌then◌else◌,
}
use cluster_api_provider_yan.Prelude.Lists.{Map, lookup, insert}
use cluster_api_provider_yan.Prelude.Text.{join}
use cluster_api_provider_yan.Api.Machine.{YandexMachine}
use cluster_api_provider_yan.Kube.{Libraries}
use cluster_api_provider_yan.Scope.Cluster.{ClusterScope, get_folder_id}

abbrev pub cluster_name_label : String
cluster_name_label = "yandex.cloud/capy-cluster-name"

abbrev pub folder_id_label : String
folder_id_label = "yandex.cloud/folder-id"

abbrev pub control_plane_name_label : String
control_plane_name_label = "yandex.cloud/capy-control-plane-name"

abbrev pub machine_deployment_name_label : String
machine_deployment_name_label = "yandex.cloud/capy-cluster-machine-deployment-name"

abbrev pub cluster_hash_label : String
cluster_hash_label = "yandex.cloud/capy-cluster-hash"

abbrev pub machine_deployment_label : String
machine_deployment_label = "yandex.cloud/capy-cluster-machine-deployment-hash"

abbrev pub managed_by_label : String
managed_by_label = "yandex.cloud/managed-by"

abbrev pub controller_manager_name : String
controller_manager_name = "capy-controller-manager"

-- Labels of Cluster API: `ClusterNameLabel` and its kin of `clusterv1`.
pub record CapiLabels : Type 0 where
  pub cluster_name : String
  pub control_plane_name : String
  pub deployment_name : String

-- `m[key]` of a Go map of strings: "" where the key is missing.
unfoldable pub at_or_empty : String → Map String → String
at_or_empty key m = elim (lookup key m) [ none ↦ "" | some value ↦ value ]

abbrev pub value_length : ℕ
value_length = 20

module _ (libs : Libraries) where
  unfoldable pub label_hash_value : List String → String
  unfolding join
  label_hash_value parts =
      let val = libs.md5_hex (join parts) in
      if leb (len val) value_length then val else slice val 0 value_length

  module _ (keys : CapiLabels) (cluster : ClusterScope) (ym : YandexMachine) where
    abbrev pub cluster_name_of : String
    cluster_name_of = at_or_empty keys.cluster_name ym.labels

    abbrev pub control_plane_of : String
    control_plane_of = at_or_empty keys.control_plane_name ym.labels

    abbrev pub deployment_of : String
    deployment_of = at_or_empty keys.deployment_name ym.labels

    -- `deploymentName`: the later of the two tests wins.
    abbrev pub deployment_name : String
    deployment_name =
        if deployment_of == ""
        then (if control_plane_of == "" then "" else control_plane_of)
        else deployment_of

    abbrev initial_labels : Map String
    initial_labels =
        (managed_by_label, controller_manager_name)
        ∷ (cluster_name_label, cluster_name_of)
        ∷ (folder_id_label, get_folder_id cluster)
        ∷ []

    abbrev with_control_plane : Map String → Map String
    with_control_plane labels =
        if control_plane_of == ""
        then labels
        else insert control_plane_name_label control_plane_of labels

    abbrev with_deployment : Map String → Map String
    with_deployment labels =
        if deployment_of == ""
        then labels
        else insert machine_deployment_name_label deployment_of labels

    unfoldable pub get_machine_labels : Map String
    get_machine_labels =
        insert machine_deployment_label
          (label_hash_value (get_folder_id cluster ∷ cluster_name_of ∷ deployment_name ∷ []))
          (insert cluster_hash_label
            (label_hash_value (get_folder_id cluster ∷ cluster_name_of ∷ []))
            (with_deployment (with_control_plane initial_labels)))
