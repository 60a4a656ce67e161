-- ===== src/Tests/Admission.antt =====
-- Updates of the cluster in the small cloud, before the webhook.
use cluster_api_provider_yan.Prelude.{
  ◌≡◌, ◌↔◌, ◌⊎◌, ◌==◌, if◌then◌else◌, refl, false, some, none, arith, eq_iff,
}
use cluster_api_provider_yan.Prelude.Int.{pos}
use cluster_api_provider_yan.Api.Cluster.{ApiEndpoint, YandexCluster}
use cluster_api_provider_yan.Scope.Cluster.{ClusterState}
use cluster_api_provider_yan.Controllers.ClusterReconciler
use cluster_api_provider_yan.Controllers.ClusterReconciler.Admission.{reconcile_admitted}
use cluster_api_provider_yan.Webhooks.Cluster.{
  Network, admitted, get_addr_type, is_4, no_endpoint, validate_update,
}
use cluster_api_provider_yan.Webhooks.Cluster.Updates.{Reachable, validate_update_admitted_iff}
use cluster_api_provider_yan.LoadBalancer.Service.{reconcile, describe, is_active}
use cluster_api_provider_yan.LoadBalancer.Alb.Creation.{
  reconcile_alb_service, reconcile_alb_target_group, reconcile_alb_backend_group, reconcile_alb,
  reconcile_existing,
}
use cluster_api_provider_yan.LoadBalancer.Alb.Reads.{
  get_internal_address, get_internal_port, is_active_alb, describe_alb,
}
use cluster_api_provider_yan.Tests.Fixtures.{
  World, client, cluster, full_world, libs, yandex_cluster,
}

-- One address is known.
abbrev net : Network
net = record {
  parse_addr = λ s. if s == "10.0.0.9" then some is_4 else none;
  lookup_host = λ s. false;
}

abbrev endpoint : ApiEndpoint
endpoint = record { host = "10.0.0.9"; port = pos 8443 }

reachable : Reachable net endpoint
unfolding get_addr_type
reachable = record {
  named = λ e. absurd (ground (arith, eq_iff "10.0.0.9" ""));
  resolves = refl;
  port_from = refl;
  port_to = refl;
}

abbrev updated : YandexCluster
updated = record yandex_cluster {
  spec = record (yandex_cluster.spec) { control_plane_endpoint = endpoint };
}

validate_update_admitted_iff_example :
    (validate_update net (some yandex_cluster) updated ≡ admitted) ↔ (
      (updated.spec.load_balancer ≡ yandex_cluster.spec.load_balancer)
      × ((endpoint ≡ no_endpoint) ⊎ ((no_endpoint ≡ no_endpoint) × Reachable net endpoint)))
validate_update_admitted_iff_example = validate_update_admitted_iff net yandex_cluster updated

abbrev start : ClusterState World
start = record { world = full_world; yandex_cluster = yandex_cluster }

reconcile_admitted_example :
    validate_update net
      (some yandex_cluster)
      (ClusterReconciler.reconcile libs client cluster start).1.yandex_cluster
    ≡ admitted
unfolding ClusterReconciler.reconcile reconcile reconcile_alb_service reconcile_alb_target_group
    reconcile_alb_backend_group reconcile_alb reconcile_existing get_internal_address
    get_internal_port is_active is_active_alb describe describe_alb
    ClusterReconciler.settle_endpoint
reconcile_admitted_example = reconcile_admitted libs client cluster net start reachable
