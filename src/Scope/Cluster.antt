-- ===== src/Scope/Cluster.antt =====
-- internal/pkg/cloud/scope/cluster.go
pub mod Names
use Prim.Native.String.{slice, len}
use cluster_api_provider_yan.Prelude.{
  ℕ, String, ◌<>◌, ◌==◌, Bool, true, false, ◌&&◌, ◌||◌, Option, none, some, leb, ltb, eqb,
  if◌then◌else◌,
}
use cluster_api_provider_yan.Prelude.Text.{keep_chars}
use cluster_api_provider_yan.Kube.{Cluster, Kube, Libraries}
use cluster_api_provider_yan.Exec.{Result, ok, err, Exec, pure, raise, lift, on_error, ◌>>=◌, ◌>>◌}
use cluster_api_provider_yan.Exec.Errors.{Error, nil_parameter, patch_helper, wrapped}
use cluster_api_provider_yan.Api.Cluster.{ApiEndpoint, Labels, LoadBalancerSpec, YandexCluster}

pub record ClusterScope : Type 0 where
  pub cluster : Cluster
  pub yandex_cluster : YandexCluster

-- The state of the cluster controller: the outside world, and the object that it may change.
pub record ClusterState (W : Type 0) : Type 0 where
  pub world : W
  pub yandex_cluster : YandexCluster

abbrev pub max_name_length : ℕ
max_name_length = 64

abbrev pub name : ClusterScope → String
name c = c.cluster.name

abbrev pub get_lb_type : ClusterScope → String
get_lb_type c = c.yandex_cluster.spec.load_balancer.type

abbrev pub get_folder_id : ClusterScope → String
get_folder_id c = c.yandex_cluster.spec.folder_id

abbrev pub get_network_id : ClusterScope → String
get_network_id c = c.yandex_cluster.spec.network.id

abbrev pub get_labels : ClusterScope → Option Labels
get_labels c = c.yandex_cluster.spec.labels

abbrev pub control_plane_endpoint : ClusterScope → ApiEndpoint
control_plane_endpoint c = c.yandex_cluster.spec.control_plane_endpoint

abbrev pub get_lb_spec : ClusterScope → LoadBalancerSpec
get_lb_spec c = c.yandex_cluster.spec.load_balancer

-- `[a-z0-9-]`, the characters that `nonAlphanumericRegex` spares.
unfoldable pub is_name_char : ℕ → Bool
is_name_char c = leb b'a' c && leb c b'z' || leb b'0' c && leb c b'9' || eqb c b'-'

-- `ReplaceAllString(str, "")` drops each run of the other characters.
unfoldable pub clear_string : String → String
unfolding keep_chars is_name_char
clear_string str = keep_chars is_name_char str

module _ (libs : Libraries) where
  -- `hash[:16]` of the 64 hexadecimal digits.
  unfoldable pub generate_name : ClusterScope → String
  generate_name c =
      let name' = clear_string (name c) <> "-api" in
      if ltb (len name') max_name_length
      then name'
      else "cluster-" <> (slice (libs.sha256_hex (name c)) 0 16 <> "-api")

  unfoldable pub get_lb_name : ClusterScope → String
  get_lb_name c =
      if c.yandex_cluster.spec.load_balancer.name == ""
      then generate_name c
      else c.yandex_cluster.spec.load_balancer.name

-- `ClusterScopeParams`, whose fields are pointers and interfaces: `none` and `false` are nil.
pub record ClusterScopeParams : Type 0 where
  pub client : Bool
  pub cluster : Option Cluster
  pub yandex_cluster : Option YandexCluster
  pub yandex_client : Bool

-- `*p` after the test for nil that gives an error.
abbrev pub required : {A : Type 0} → String → Option A → Result A
required what none = err (nil_parameter what)
required what (some a) = ok a

abbrev pub required_interface : String → Bool → Result (Unit {0})
required_interface what true = ok tt
required_interface what false = err (nil_parameter what)

-- `NewClusterScope`
unfoldable pub new_cluster_scope : {W : Type 0} → Kube W → ClusterScopeParams → Exec W ClusterScope
new_cluster_scope kube params = do
  lift (required_interface "Client" params.client)
  cluster ← lift (required "Cluster" params.cluster)
  yandex_cluster ← lift (required "YandexCluster" params.yandex_cluster)
  lift (required_interface "YandexClient" params.yandex_client)
  on_error (kube.new_cluster_helper yandex_cluster) (λ e. raise (wrapped patch_helper e))
  pure (record { cluster = cluster; yandex_cluster = yandex_cluster })

-- `SetReady`
abbrev pub set_ready : {W : Type 0} → ClusterState W → ClusterState W
set_ready s =
    let yc = s.yandex_cluster in
    record s { yandex_cluster = record yc { status = record (yc.status) { ready = true } } }

-- A call that reads the scope of the cluster and changes the outside world alone.
abbrev pub in_scope : {W A : Type 0} → Cluster → (ClusterScope → Exec W A) → Exec (ClusterState W) A
in_scope cluster f s =
    let (r, w) = f (record { cluster = cluster; yandex_cluster = s.yandex_cluster }) s.world in
    (r, record s { world = w })
