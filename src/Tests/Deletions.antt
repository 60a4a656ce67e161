-- ===== src/Tests/Deletions.antt =====
-- The deletion of everything in the small cloud, which takes its time.
use cluster_api_provider_yan.Prelude.{String, ◌≡◌, refl, Option, none, some, [], arith}
use cluster_api_provider_yan.Cloud.Messages.{BackendGroup, LoadBalancer, TargetGroup}
use cluster_api_provider_yan.Scope.Cluster.{get_folder_id, get_lb_name}
use cluster_api_provider_yan.LoadBalancer.Alb.Lookups.{Shows}
use cluster_api_provider_yan.LoadBalancer.Alb.Deletion.Convergence.{
  Deletes, Ends, delete_alb_service-Ends,
}
use cluster_api_provider_yan.Tests.Fixtures.{
  World, a_balancer, client, full_world, libs, marked, pass, scope,
}

module _ (folder name : String) where
  abbrev pub Sees : World → Option LoadBalancer → Option BackendGroup → Option TargetGroup → Type 0
  Sees w lb bg tg = Shows client folder name w lb bg tg

  pub sees :
      (w : World) (lb : Option LoadBalancer) (bg : Option BackendGroup) (tg : Option TargetGroup)
      → w.balancer ≡ lb
      → w.backend ≡ bg
      → w.group ≡ tg
      → Sees w lb bg tg
  sees w lb bg tg hl hb ht = record {
    shows_lb = rw hl refl;
    shows_bg = rw hb refl;
    shows_tg = rw ht refl;
  }

  pub seen :
      (w : World) (lb : Option LoadBalancer) (bg : Option BackendGroup) (tg : Option TargetGroup)
      → Sees w lb bg tg
      → (w.balancer ≡ lb) × (w.backend ≡ bg) × (w.group ≡ tg)
  seen w lb bg tg h = (ground arith, ground arith, ground arith)

  deletes : Deletes client pass folder name
  deletes = record {
    lb_deleted = λ w lb bg tg h idle.
        let w' : World = record w { balancer = marked w.balancer } in
        let (hl, hb, ht) = seen w (some lb) bg tg h in
        (w', refl, 0, sees (pass w') none bg tg (rw hl refl) hb ht);
    lb_fades = λ w lb bg tg h going.
        let (hl, hb, ht) = seen w (some lb) bg tg h in
        (0, sees (pass w) none bg tg (rw (hl, going) refl) hb ht);
    bg_deleted = λ w bg tg h.
        let w' : World = record w { backend = none } in
        let (hl, hb, ht) = seen w none (some bg) tg h in
        (w', refl, sees (pass w') none none tg (rw hl refl) refl ht);
    tg_deleted = λ w tg h.
        let w' : World = record w { group = none } in
        let (hl, hb, ht) = seen w none none (some tg) h in
        (w', refl, sees (pass w') none none none (rw hl refl) hb refl);
  }

full_seen :
    Shows client
      (get_folder_id scope)
      (get_lb_name libs scope)
      full_world
      (some a_balancer)
      (some (record { id = "bg1" }))
      (some (record { id = "tg1"; targets = [] }))
full_seen = sees _ _ full_world _ _ _ refl refl refl

delete_alb_service-Ends_example : Ends libs client scope pass full_world
delete_alb_service-Ends_example =
    delete_alb_service-Ends libs client scope pass
      (deletes (get_folder_id scope) (get_lb_name libs scope)) full_world (some a_balancer)
      (some (record { id = "bg1" })) (some (record { id = "tg1"; targets = [] })) full_seen
