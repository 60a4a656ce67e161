-- ===== src/YandexClient/Nlb.antt =====
-- internal/pkg/client/nlb.go: the requests for the target groups of network load balancers, whose
-- messages the client passes on unread.
use cluster_api_provider_yan.Prelude.{String, ℕ}
use cluster_api_provider_yan.Exec.{Exec}
use cluster_api_provider_yan.Metrics.{
  YcMetrics, Monitored, observed, service_label_nlb_target_group,
}

-- `LoadBalancer().TargetGroup()` of the SDK
pub record NlbSdk (W Op Request Group : Type 0) : Type 0 where
  pub add_targets : Request → Exec W Op
  pub remove_targets : Request → Exec W Op
  pub get : String → Exec W Group

module _ {W M Op Request Group : Type 0} (om : YcMetrics M) (now : W → ℕ)
    (sdk : NlbSdk W Op Request Group) where
  unfoldable pub nlb_add_target : Request → Exec (Monitored W M) Op
  nlb_add_target req = observed om now service_label_nlb_target_group (sdk.add_targets req)

  unfoldable pub nlb_remove_target : Request → Exec (Monitored W M) Op
  nlb_remove_target req = observed om now service_label_nlb_target_group (sdk.remove_targets req)

  unfoldable pub nlb_get_target_group : String → Exec (Monitored W M) Group
  nlb_get_target_group id = observed om now service_label_nlb_target_group (sdk.get id)
