-- ===== src/YandexClient/Compute.antt =====
-- internal/pkg/client/compute.go: the requests for instances.
use cluster_api_provider_yan.Prelude.{String, ℕ}
use cluster_api_provider_yan.Exec.{Result, ok, panic, Exec, pure, lift, ◌>>=◌, ◌>>◌}
use cluster_api_provider_yan.Cloud.Messages.{Instance}
use cluster_api_provider_yan.Cloud.Requests.{CreateInstanceRequest}
use cluster_api_provider_yan.Metrics.{
  YcMetrics, Monitored, observed, in_world, service_label_compute,
}
use cluster_api_provider_yan.YandexClient.Sdk.{Sdk, Metadata, instance_metadata}

-- `meta.(*compute.CreateInstanceMetadata).InstanceId`: an assertion without a test, which panics.
abbrev pub instance_id_of : Metadata → Result String
instance_id_of (instance_metadata id) = ok id
instance_id_of _ = panic

module _ {W M Op Wrapped : Type 0} (om : YcMetrics M) (now : W → ℕ) (sdk : Sdk W Op Wrapped) where
  unfoldable pub compute_get : String → Exec (Monitored W M) Instance
  compute_get id = observed om now service_label_compute (sdk.instance_get id)

  unfoldable pub compute_create : CreateInstanceRequest → Exec (Monitored W M) String
  compute_create req = do
    op ← observed om now service_label_compute (sdk.instance_create req)
    ci ← in_world (sdk.wrap_operation op)
    meta ← lift (sdk.metadata ci)
    lift (instance_id_of meta)

  unfoldable pub compute_delete : String → Exec (Monitored W M) (Unit {0})
  compute_delete id = observed om now service_label_compute (sdk.instance_delete id) >> pure tt
