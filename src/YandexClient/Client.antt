-- ===== src/YandexClient/Client.antt =====
-- internal/pkg/client/client.go: the `YandexClient` as the interface of the cloud API, and as the client
-- that the services use.
use cluster_api_provider_yan.Prelude.{ℕ}
use cluster_api_provider_yan.Cloud.{Client}
use cluster_api_provider_yan.Cloud.Interfaces.{
  Compute, ApplicationLoadBalancer, Api, services_client,
}
use cluster_api_provider_yan.Metrics.{YcMetrics, Monitored, in_world}
use cluster_api_provider_yan.YandexClient.Sdk.{Sdk, close}
use cluster_api_provider_yan.YandexClient.Compute.{compute_get, compute_create, compute_delete}
use cluster_api_provider_yan.YandexClient.Alb.{
  alb_add_target, alb_get_target_group, alb_remove_target, alb_target_group_create,
  alb_target_group_delete, alb_target_group_get, alb_target_group_get_by_name,
  alb_backend_group_create, alb_backend_group_delete, alb_backend_group_get,
  alb_backend_group_get_by_name, alb_create, alb_delete, alb_get, alb_get_by_name,
}
use cluster_api_provider_yan.YandexClient.Nlb.{
  NlbSdk, nlb_add_target, nlb_remove_target, nlb_get_target_group,
}

module _ {W M Op Wrapped : Type 0} (om : YcMetrics M) (now : W → ℕ) (sdk : Sdk W Op Wrapped) where
  abbrev compute : Compute (Monitored W M)
  compute = record {
    compute_get = compute_get om now sdk;
    compute_create = compute_create om now sdk;
    compute_delete = compute_delete om now sdk;
  }

  abbrev alb : ApplicationLoadBalancer (Monitored W M) Op
  alb = record {
    alb_add_target = alb_add_target om now sdk;
    alb_get_target_group = alb_get_target_group om now sdk;
    alb_remove_target = alb_remove_target om now sdk;
    alb_target_group_create = alb_target_group_create om now sdk;
    alb_target_group_delete = alb_target_group_delete om now sdk;
    alb_target_group_get = alb_target_group_get om now sdk;
    alb_target_group_get_by_name = alb_target_group_get_by_name om now sdk;
    alb_backend_group_create = alb_backend_group_create om now sdk;
    alb_backend_group_delete = alb_backend_group_delete om now sdk;
    alb_backend_group_get = alb_backend_group_get om now sdk;
    alb_backend_group_get_by_name = alb_backend_group_get_by_name om now sdk;
    alb_create = alb_create om now sdk;
    alb_delete = alb_delete om now sdk;
    alb_get = alb_get om now sdk;
    alb_get_by_name = alb_get_by_name om now sdk;
  }

  abbrev pub yandex_client : Client (Monitored W M)
  yandex_client = services_client compute alb

  -- `YandexClient` as a `Client`
  abbrev pub yandex_api : {N G : Type 0} → NlbSdk W Op N G → Api (Monitored W M) Op N G
  yandex_api nlb = record {
    compute = compute;
    alb = alb;
    nlb = record {
      nlb_add_target = nlb_add_target om now nlb;
      nlb_get_target_group = nlb_get_target_group om now nlb;
      nlb_remove_target = nlb_remove_target om now nlb;
    };
    close = in_world (close sdk);
  }
