-- ===== src/LoadBalancer/Alb/Deletion/Convergence.antt =====
-- Repeated calls of `deleteALBService` come to an end, while the cloud takes its time.
use cluster_api_provider_yan.Prelude.{
  ℕ, zero, suc, ap, ◌∙◌, String, Bool, true, false, ◌≡◌, refl, Option, none, some, Bool-cases, inl,
  inr,
}
use cluster_api_provider_yan.Exec.{Result, ok}
use cluster_api_provider_yan.Cloud.{Client}
use cluster_api_provider_yan.Cloud.Messages.{LoadBalancer, BackendGroup, TargetGroup}
use cluster_api_provider_yan.Kube.{Libraries}
use cluster_api_provider_yan.Scope.Cluster.{ClusterScope, get_folder_id, get_lb_name}
use cluster_api_provider_yan.LoadBalancer.Alb.Lookups.{Shows}
use cluster_api_provider_yan.LoadBalancer.Alb.Deletion.{
  delete_alb_service, delete_application_load_balancer, delete_alb_backend_group,
  delete_alb_target_group, is_going,
}

module _ {W : Type 0} (client : Client W) (pass : W → W) (folder name : String) where
  abbrev Found : W → Option LoadBalancer → Option BackendGroup → Option TargetGroup → Type 0
  Found = Shows client folder name

  -- A load balancer that is being deleted shows as such for some pauses, and then no more.
  abbrev pub Fades : ℕ → W → Option BackendGroup → Option TargetGroup → Type 0
  Fades zero w bg tg = Found (pass w) none bg tg
  Fades (suc k) w bg tg =
      (lb : LoadBalancer) × (is_going lb.status ≡ true)
      × Found (pass w) (some lb) bg tg
      × Fades k (pass w) bg tg

  -- What the cloud documents of deletions, where `pass` is what happens in the pause between two
  -- calls: the deletion of a load balancer goes on after its call returned, and is done some time;
  -- a group that nothing uses is gone after the next pause; the other objects stay.
  pub record Deletes : Type 0 where
    pub lb_deleted :
        (w : W) (lb : LoadBalancer) (bg : Option BackendGroup) (tg : Option TargetGroup)
        → Found w (some lb) bg tg
        → is_going lb.status ≡ false
        → (w' : W) × (client.alb_delete lb.id w ≡ (ok tt, w')) × (k : ℕ) × Fades k w' bg tg
    pub lb_fades :
        (w : W) (lb : LoadBalancer) (bg : Option BackendGroup) (tg : Option TargetGroup)
        → Found w (some lb) bg tg
        → is_going lb.status ≡ true
        → (k : ℕ) × Fades k w bg tg
    pub bg_deleted :
        (w : W) (bg : BackendGroup) (tg : Option TargetGroup)
        → Found w none (some bg) tg
        → (w' : W) × (client.alb_backend_group_delete bg.id w ≡ (ok tt, w'))
          × Found (pass w') none none tg
    pub tg_deleted :
        (w : W) (tg : TargetGroup)
        → Found w none none (some tg)
        → (w' : W) × (client.alb_target_group_delete tg.id w ≡ (ok tt, w'))
          × Found (pass w') none none none

module _ {W : Type 0} (libs : Libraries) (client : Client W) (c : ClusterScope) (pass : W → W) where
  -- A call after a number of calls whose results are let go, with a pause after each.
  abbrev pub repeated : ℕ → W → Result Bool × W
  repeated zero w = delete_alb_service libs client c w
  repeated (suc n) w = let (_, w') = delete_alb_service libs client c w in repeated n (pass w')

  abbrev pub Seen : W → Option LoadBalancer → Option BackendGroup → Option TargetGroup → Type 0
  Seen w lb bg tg = Shows client (get_folder_id c) (get_lb_name libs c) w lb bg tg

  -- After some number of calls, the next one reports the end, and nothing is left.
  abbrev pub Ends : W → Type 0
  Ends w = (n : ℕ) × (w' : W) × (repeated n w ≡ (ok true, w')) × Seen w' none none none

  nothing_left : (w : W) → Seen w none none none → Ends w
  nothing_left w h = (
    0,
    w,
    unfold delete_alb_service delete_application_load_balancer delete_alb_backend_group
          delete_alb_target_group in
        rw (h.shows_lb, h.shows_bg, h.shows_tg) refl,
    h,
  )

  later : (w w' : W) → delete_alb_service libs client c w ≡ (ok false, w') → Ends (pass w') → Ends w
  later w w' e (n, last, done, gone) =
      (suc n, last, ap (λ (p : Result Bool × W). repeated n (pass p.1)) e ∙ done, gone)

  module _ (D : Deletes client pass (get_folder_id c) (get_lb_name libs c)) where
    tg_left : (w : W) (tg : Option TargetGroup) → Seen w none none tg → Ends w
    tg_left w none h = nothing_left w h
    tg_left w (some tg) h =
        let (w', e, h') = D.tg_deleted w tg h in
        later w w'
          (unfold delete_alb_service delete_application_load_balancer delete_alb_backend_group
              delete_alb_target_group in
            rw (h.shows_lb, h.shows_bg, h.shows_tg, e) refl)
          (nothing_left (pass w') h')

    bg_left :
        (w : W) (bg : Option BackendGroup) (tg : Option TargetGroup) → Seen w none bg tg → Ends w
    bg_left w none tg h = tg_left w tg h
    bg_left w (some bg) tg h =
        let (w', e, h') = D.bg_deleted w bg tg h in
        later w w'
          (unfold delete_alb_service delete_application_load_balancer delete_alb_backend_group in
            rw (h.shows_lb, h.shows_bg, e) refl)
          (tg_left (pass w') tg h')

    -- Nothing is asked for while the load balancer is being deleted.
    waits :
        (w : W) (lb : LoadBalancer) (bg : Option BackendGroup) (tg : Option TargetGroup)
        → is_going lb.status ≡ true
        → Seen w (some lb) bg tg
        → delete_alb_service libs client c w ≡ (ok false, w)
    unfolding delete_alb_service delete_application_load_balancer
    waits w lb bg tg going h = rw (h.shows_lb, going) refl

    fading :
        (k : ℕ) (w : W) (bg : Option BackendGroup) (tg : Option TargetGroup)
        → Fades client pass (get_folder_id c) (get_lb_name libs c) k w bg tg
        → Ends (pass w)
    fading zero w bg tg h = bg_left (pass w) bg tg h
    fading (suc k) w bg tg (lb, going, h, rest) =
        later (pass w) (pass w) (waits (pass w) lb bg tg going h) (fading k (pass w) bg tg rest)

    -- In a cloud that deletes, `deleteALBService`, called again and again with a pause between the
    -- calls, reports at last that everything is deleted, and then none of the three objects is
    -- found, whatever is there at the start.
    pub delete_alb_service-Ends :
        (w : W) (lb : Option LoadBalancer) (bg : Option BackendGroup) (tg : Option TargetGroup)
        → Seen w lb bg tg
        → Ends w
    delete_alb_service-Ends w none bg tg h = bg_left w bg tg h
    delete_alb_service-Ends w (some lb) bg tg h = elim (Bool-cases (is_going lb.status)) [
      | inl going ↦
          let (k, fade) = D.lb_fades w lb bg tg h going in
          later w w (waits w lb bg tg going h) (fading k w bg tg fade)
      | inr idle ↦
          let (w', e, k, fade) = D.lb_deleted w lb bg tg h idle in
          later w w'
            (unfold delete_alb_service delete_application_load_balancer in
              rw (h.shows_lb, idle, e) refl)
            (fading k w' bg tg fade)
    ]
