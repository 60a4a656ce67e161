-- ===== src/Tests/Creations.antt =====
-- The creation of everything in the small cloud, and another call after it.
use cluster_api_provider_yan.Prelude.{String, refl, none, some, []}
use cluster_api_provider_yan.Cloud.Messages.{BackendGroup, TargetGroup}
use cluster_api_provider_yan.Cloud.Recording.{Recorded, recording}
use cluster_api_provider_yan.Scope.Cluster.{ClusterState, get_folder_id, get_lb_name}
use cluster_api_provider_yan.LoadBalancer.Alb.Creation.{reconcile_alb_service}
use cluster_api_provider_yan.LoadBalancer.Alb.Creation.Settling.{Creates, Settled}
use cluster_api_provider_yan.LoadBalancer.Alb.Creation.Settled.{reconcile_alb_service-Settled}
use cluster_api_provider_yan.Tests.Deletions.{sees, seen}
use cluster_api_provider_yan.Tests.Fixtures.{
  World, a_balancer, client, cluster, empty_world, libs, scope, yandex_cluster,
}

creates : (folder name : String) → Creates client folder name
creates folder name = record {
  tg_created = λ w lb bg req h hf hn.
      let tg : TargetGroup = record { id = "tg1"; targets = [] } in
      let w' : World = record w { group = some tg } in
      let (hl, hb, ht) = seen folder name w lb bg none h in
      (tg, w', refl, sees folder name w' lb bg (some tg) hl hb refl);
  bg_created = λ w lb tg req h hf hn.
      let bg : BackendGroup = record { id = "bg1" } in
      let w' : World = record w { backend = some bg } in
      let (hl, hb, ht) = seen folder name w lb none (some tg) h in
      (bg, w', refl, sees folder name w' lb (some bg) (some tg) hl refl ht);
  lb_created = λ w bg tg req h hf hn.
      let w' : World = record w { balancer = some a_balancer } in
      let (hl, hb, ht) = seen folder name w none (some bg) (some tg) h in
      (a_balancer, w', refl, sees folder name w' (some a_balancer) (some bg) (some tg) refl hb ht);
}

abbrev start : ClusterState (Recorded World)
start = record {
  world = record { world = empty_world; calls = [] };
  yandex_cluster = yandex_cluster;
}

reconcile_alb_service-Settled_example :
    Settled libs client cluster (reconcile_alb_service libs (recording client) cluster start).1
reconcile_alb_service-Settled_example =
    reconcile_alb_service-Settled libs client cluster start
      (creates (get_folder_id scope) (get_lb_name libs scope)) none none none
      (sees (get_folder_id scope) (get_lb_name libs scope) empty_world none none none refl refl
        refl)
