-- ===== src/Tests/SdkDeletions.antt =====
-- The deletion of everything by the client of the SDK, in the small cloud.
use cluster_api_provider_yan.Prelude.{String, ◌≡◌, refl, ap, ◌∙◌, Option, none, some, [], arith}
use cluster_api_provider_yan.Exec.{ok}
use cluster_api_provider_yan.Cloud.Messages.{BackendGroup, LoadBalancer, TargetGroup}
use cluster_api_provider_yan.Metrics.{Monitored, world_of}
use cluster_api_provider_yan.Scope.Cluster.{get_folder_id, get_lb_name}
use cluster_api_provider_yan.LoadBalancer.Alb.Lookups.{Shows}
use cluster_api_provider_yan.LoadBalancer.Alb.Deletion.Convergence.{Deletes}
use cluster_api_provider_yan.LoadBalancer.Alb.Refinement.Deletion.{EndsWith}
use cluster_api_provider_yan.YandexClient.Client.{yandex_client}
use cluster_api_provider_yan.YandexClient.Alb.{first_listed}
use cluster_api_provider_yan.YandexClient.Refinement.{direct_client}
use cluster_api_provider_yan.YandexClient.Deletion.{yandex_client_deletes}
use cluster_api_provider_yan.Tests.Fixtures.{
  World, a_balancer, full_world, libs, marked, pass, scope,
}
use cluster_api_provider_yan.Tests.Requests.{Log, listed, now, om, sdk, start, takes}

first_listed-listed : {A : Type 0} (o : Option A) → first_listed (listed o) ≡ o
first_listed-listed none = refl
first_listed-listed (some a) = refl

module _ (folder name : String) where
  abbrev Sees : World → Option LoadBalancer → Option BackendGroup → Option TargetGroup → Type 0
  Sees w lb bg tg = Shows (direct_client sdk) folder name w lb bg tg

  sees :
      (w : World) (lb : Option LoadBalancer) (bg : Option BackendGroup) (tg : Option TargetGroup)
      → w.balancer ≡ lb
      → w.backend ≡ bg
      → w.group ≡ tg
      → Sees w lb bg tg
  sees w lb bg tg hl hb ht = record {
    shows_lb = ap (λ (o : Option LoadBalancer). (ok o, w)) (first_listed-listed w.balancer ∙ hl);
    shows_bg = ap (λ (o : Option BackendGroup). (ok o, w)) (first_listed-listed w.backend ∙ hb);
    shows_tg = ap (λ (o : Option TargetGroup). (ok o, w)) (first_listed-listed w.group ∙ ht);
  }

  seen :
      (w : World) (lb : Option LoadBalancer) (bg : Option BackendGroup) (tg : Option TargetGroup)
      → Sees w lb bg tg
      → (w.balancer ≡ lb) × (w.backend ≡ bg) × (w.group ≡ tg)
  seen w lb bg tg h = (ground arith, ground arith, ground arith)

  deletes : Deletes (direct_client sdk) pass folder name
  deletes = record {
    lb_deleted = λ w lb bg tg h idle.
        let w' : World = record w { balancer = marked w.balancer } in
        let (hl, hb, ht) = seen w (some lb) bg tg h in
        (w', refl, 0, sees (pass w') none bg tg (rw hl refl) hb ht);
    lb_fades = λ w lb bg tg h going.
        let (hl, hb, ht) = seen w (some lb) bg tg h in
        (0, sees (pass w) none bg tg (rw (hl, going) refl) hb ht);
    bg_deleted = λ w bg tg h.
        let w' : World = record w { backend = none } in
        let (hl, hb, ht) = seen w none (some bg) tg h in
        (w', refl, sees (pass w') none none tg (rw hl refl) refl ht);
    tg_deleted = λ w tg h.
        let w' : World = record w { group = none } in
        let (hl, hb, ht) = seen w none none (some tg) h in
        (w', refl, sees (pass w') none none none (rw hl refl) hb refl);
  }

abbrev pause : Monitored World Log → Monitored World Log
pause s = record s { world = pass s.world }

-- The world at the start has all three objects.
full_seen :
    Shows
      (direct_client sdk)
      (get_folder_id scope)
      (get_lb_name libs scope)
      start.world
      (some a_balancer)
      (some (record { id = "bg1" }))
      (some (record { id = "tg1"; targets = [] }))
full_seen = sees _ _ full_world _ _ _ refl refl refl

yandex_client_deletes_example :
    EndsWith world_of libs (yandex_client om now sdk) (direct_client sdk) scope pause pass start
yandex_client_deletes_example =
    yandex_client_deletes om now takes sdk libs scope pass pause (λ s. refl)
      (deletes (get_folder_id scope) (get_lb_name libs scope)) start (some a_balancer)
      (some (record { id = "bg1" })) (some (record { id = "tg1"; targets = [] })) full_seen
