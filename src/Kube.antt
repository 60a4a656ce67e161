-- ===== src/Kube.antt =====
-- What the program uses of the Kubernetes libraries and of the API server: parameters of the
-- model. `Libraries` holds pure functions, `Kube` the calls that reach the API server.
pub mod Refinement
pub mod Quiet
use cluster_api_provider_yan.Prelude.{ℕ, String, Bool, Option, List}
use cluster_api_provider_yan.Prelude.Int.{ℤ}
use cluster_api_provider_yan.Prelude.Lists.{Map}
use cluster_api_provider_yan.Exec.{Exec}
use cluster_api_provider_yan.Exec.Errors.{Error}
use cluster_api_provider_yan.Api.Cluster.{ApiEndpoint, YandexCluster}
use cluster_api_provider_yan.Api.Machine.{Quantity, YandexMachine}

-- `types.NamespacedName`
pub record ObjectKey : Type 0 where
  pub namespace : String
  pub name : String

-- `clusterv1.Cluster`; the reference to the infrastructure object is a pointer.
pub record Cluster : Type 0 where
  pub name : String
  pub paused : Bool
  pub infrastructure_ref : Option String

-- `clusterv1.Machine`
pub record Machine : Type 0 where
  pub name : String
  pub namespace : String
  pub labels : Map String
  pub data_secret_name : Option String
  pub infrastructure_ref_name : String

pub record Libraries : Type 0 where
  -- `controllerutil.ContainsFinalizer`, `AddFinalizer` and `RemoveFinalizer`
  pub contains_finalizer : List String → String → Bool
  pub add_finalizer : List String → String → List String
  pub remove_finalizer : List String → String → List String
  -- `status.FromError`: the code, and whether the error carries one; `codes.NotFound`
  pub from_error : Error → ℕ × Bool
  pub not_found_code : ℕ
  -- `apierrors.IsNotFound`
  pub is_api_not_found : Error → Bool
  -- `annotations.IsPaused`
  pub is_cluster_paused : Cluster → YandexCluster → Bool
  pub is_machine_paused : Cluster → YandexMachine → Bool
  -- `util.IsControlPlaneMachine`
  pub is_control_plane_machine : Machine → Bool
  -- `clusterv1.APIEndpoint.IsValid`
  pub is_endpoint_valid : ApiEndpoint → Bool
  -- `resource.Quantity.AsInt64`; `none` is a result that is not ok
  pub as_int64 : Quantity → Option ℤ
  -- `clusterv1.DeletingReason` and `clusterv1.DeletionFailedReason`
  pub deleting_reason : String
  pub deletion_failed_reason : String
  -- hexadecimal digests of crypto/sha256 and crypto/md5
  pub sha256_hex : String → String
  pub md5_hex : String → String

-- The API server, with the patch helpers. A patch is given the object as it was read and as it is.
pub record Kube (W : Type 0) : Type 0 where
  pub get_yandex_cluster : ObjectKey → Exec W YandexCluster
  pub get_yandex_machine : ObjectKey → Exec W YandexMachine
  pub get_owner_cluster : YandexCluster → Exec W (Option Cluster)
  pub get_owner_machine : YandexMachine → Exec W (Option Machine)
  pub get_cluster_from_metadata : Machine → Exec W Cluster
  pub get_secret : ObjectKey → Exec W (Map String)
  pub list_machines : String → String → Exec W (List Machine)
  pub new_cluster_helper : YandexCluster → Exec W (Unit {0})
  pub new_machine_helper : YandexMachine → Exec W (Unit {0})
  pub patch_cluster : YandexCluster → YandexCluster → Exec W (Unit {0})
  pub patch_machine : YandexMachine → YandexMachine → Exec W (Unit {0})
