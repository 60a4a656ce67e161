-- ===== src/YandexClient/Deletion.antt =====
-- The deletion of a load balancer by the client of the SDK, against what the cloud documents.
use cluster_api_provider_yan.Prelude.{ℕ, ◌≡◌, Option}
use cluster_api_provider_yan.Cloud.Messages.{LoadBalancer, TargetGroup, BackendGroup}
use cluster_api_provider_yan.Kube.{Libraries}
use cluster_api_provider_yan.Scope.Cluster.{ClusterScope, get_folder_id, get_lb_name}
use cluster_api_provider_yan.Metrics.{YcMetrics, Monitored, world_of}
use cluster_api_provider_yan.Metrics.Transparency.{TakesLabels}
use cluster_api_provider_yan.LoadBalancer.Alb.Deletion.Convergence.{
  Deletes, Seen, delete_alb_service-Ends,
}
use cluster_api_provider_yan.LoadBalancer.Alb.Refinement.Deletion.{EndsWith, detailed-EndsWith}
use cluster_api_provider_yan.YandexClient.Sdk.{Sdk}
use cluster_api_provider_yan.YandexClient.Client.{yandex_client}
use cluster_api_provider_yan.YandexClient.Refinement.{direct_client, yandex_client-Refines}

module _ {W M Op Wrapped : Type 0} (om : YcMetrics M) (now : W → ℕ) (T : TakesLabels om)
    (sdk : Sdk W Op Wrapped) (libs : Libraries) (c : ClusterScope) (pass : W → W)
    (pause : Monitored W M → Monitored W M)
    (same_pause : (s : Monitored W M) → (pause s).world ≡ pass s.world)
    (D : Deletes (direct_client sdk) pass (get_folder_id c) (get_lb_name libs c)) where
  -- In a cloud whose requests delete as it documents, `deleteALBService` over `YandexClient`, called
  -- again and again with a pause between the calls, reports at last that everything is deleted, and
  -- then none of the three objects is listed, whatever is there at the start.
  pub yandex_client_deletes :
      (s : Monitored W M) (lb : Option LoadBalancer) (bg : Option BackendGroup)
      (tg : Option TargetGroup)
      → Seen libs (direct_client sdk) c pass s.world lb bg tg
      → EndsWith world_of libs (yandex_client om now sdk) (direct_client sdk) c pause pass s
  yandex_client_deletes s lb bg tg h =
      detailed-EndsWith world_of libs (yandex_client-Refines om now T sdk) c pause pass same_pause s
        (delete_alb_service-Ends libs (direct_client sdk) c pass D s.world lb bg tg h)
