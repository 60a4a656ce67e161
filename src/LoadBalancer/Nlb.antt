-- ===== src/LoadBalancer/Nlb.antt =====
-- internal/pkg/cloud/services/loadbalancers/nlb.go: every operation refuses.
use cluster_api_provider_yan.Prelude.{String, Bool}
use cluster_api_provider_yan.Exec.{Exec, raise}
use cluster_api_provider_yan.Exec.Errors.{nlb_unsupported}
use cluster_api_provider_yan.Api.Cluster.{LoadBalancerStatus}

module _ {S : Type 0} where
  abbrev pub reconcile_nlb_service : Exec S (Unit {0})
  reconcile_nlb_service = raise nlb_unsupported

  abbrev pub delete_nlb_service : Exec S Bool
  delete_nlb_service = raise nlb_unsupported

  abbrev pub describe_nlb : Exec S LoadBalancerStatus
  describe_nlb = raise nlb_unsupported

  abbrev pub add_target_nlb : String → String → Exec S (Unit {0})
  add_target_nlb addr subnet_id = raise nlb_unsupported

  abbrev pub remove_target_nlb : String → String → Exec S (Unit {0})
  remove_target_nlb addr subnet_id = raise nlb_unsupported

  abbrev pub is_active_nlb : Exec S Bool
  is_active_nlb = raise nlb_unsupported
