-- ===== src/LoadBalancer/Alb/Creation/Settled.antt =====
-- One `reconcileALBService`, in a cloud that keeps what it creates, and another one after it.
use cluster_api_provider_yan.Prelude.{
  String, ◌≡◌, refl, sym, subst, false, Option, none, some, ◌∷◌, inl, inr, Bool-cases,
}
use cluster_api_provider_yan.Exec.{ok}
use cluster_api_provider_yan.Api.Conditions.{mark_true, condition_ready}
use cluster_api_provider_yan.Cloud.{Client}
use cluster_api_provider_yan.Cloud.Messages.{LoadBalancer, BackendGroup, TargetGroup}
use cluster_api_provider_yan.Cloud.Recording.{
  Recorded, recording, create_target_group, create_backend_group, create_balancer,
}
use cluster_api_provider_yan.LoadBalancer.Builders.Balancer
use cluster_api_provider_yan.Kube.{Cluster, Libraries}
use cluster_api_provider_yan.Scope.Cluster.{ClusterState, get_folder_id, get_lb_name, generate_name}
use cluster_api_provider_yan.LoadBalancer.Alb.Lookups.{Shows}
use cluster_api_provider_yan.LoadBalancer.Alb.Creation.{
  is_unrecoverable, mark, reconcile_alb_target_group, reconcile_alb_backend_group, reconcile_alb,
  reconcile_alb_service,
}
use cluster_api_provider_yan.LoadBalancer.Alb.Creation.Settling.{
  Creates, Finds, Settled, bg_found, bg_request, lb_found, lb_refused, lb_request, lb-Settled,
  scope_of, tg_found, tg_request,
}

module _ {W : Type 0} (libs : Libraries) (client : Client W) (cluster : Cluster)
    (s : ClusterState (Recorded W))
    (C : Creates client
      (get_folder_id (scope_of libs client cluster s))
      (get_lb_name libs (scope_of libs client cluster s))) where
  abbrev at : Recorded W → ClusterState (Recorded W)
  at w = record s { world = w }

  tg_made :
      (lb : Option LoadBalancer) (bg : Option BackendGroup) (tg : Option TargetGroup)
      (w : Recorded W)
      → Finds libs client cluster (at w) lb bg tg
      → (t : TargetGroup) × (w' : Recorded W) × (reconcile_alb_target_group libs
            (recording client)
            (scope_of libs client cluster s)
            w
          ≡ (ok t.id, w'))
        × Finds libs client cluster (at w') lb bg (some t)
  tg_made lb bg (some t) w h = (t, w, tg_found libs client cluster (at w) h t refl, h)
  tg_made lb bg none w h =
      let (t, w', e, h') =
        C.tg_created w.world lb bg (tg_request libs client cluster (scope_of libs client cluster s))
          h refl refl in
      (
        t,
        record {
          world = w';
          calls =
              create_target_group (tg_request libs client cluster (scope_of libs client cluster s))
              ∷ w.calls;
        },
        unfold reconcile_alb_target_group in rw (h.shows_tg, e) refl,
        h',
      )

  bg_made :
      (lb : Option LoadBalancer) (bg : Option BackendGroup) (tg : TargetGroup) (w : Recorded W)
      → Finds libs client cluster (at w) lb bg (some tg)
      → (b : BackendGroup) × (w' : Recorded W) × (reconcile_alb_backend_group libs
            (recording client)
            (scope_of libs client cluster s)
            tg.id
            w
          ≡ (ok b.id, w'))
        × Finds libs client cluster (at w') lb (some b) (some tg)
  bg_made lb (some b) tg w h = (b, w, bg_found libs client cluster (at w) h b tg.id refl, h)
  bg_made lb none tg w h =
      let (b, w', e, h') =
        C.bg_created w.world lb tg
          (bg_request libs client cluster (scope_of libs client cluster s) tg.id) h refl refl in
      (
        b,
        record {
          world = w';
          calls =
              create_backend_group
                (bg_request libs client cluster (scope_of libs client cluster s) tg.id)
              ∷ w.calls;
        },
        unfold reconcile_alb_backend_group in rw (h.shows_bg, e) refl,
        h',
      )

  -- The load balancer is made, and the cluster is marked.
  made : LoadBalancer → W → String → Recorded W → ClusterState (Recorded W)
  made l w' backend_group_id w = mark (mark_true condition_ready) (
      at (record {
        world = w';
        calls =
            create_balancer
              (lb_request libs client cluster (scope_of libs client cluster s) backend_group_id)
            ∷ w.calls;
      }))

  lb_run :
      (l : LoadBalancer) (w' : W) (bg : String) (b : Option BackendGroup) (t : Option TargetGroup)
      (w : Recorded W)
      → Finds libs client cluster (at w) none b t
      → is_unrecoverable libs (scope_of libs client cluster s) ≡ false
      → client.alb_create
          (lb_request libs client cluster (scope_of libs client cluster s) bg)
          w.world
        ≡ (ok l.id, w')
      → (reconcile_alb libs (recording client) cluster bg (at w)).1 ≡ made l w' bg w
  unfolding reconcile_alb made
  lb_run l w' bg b t w h recoverable e = rw (h.shows_lb, recoverable, e) refl

  made-Finds :
      (l : LoadBalancer) (w' : W) (bg : String) (w : Recorded W) (b : Option BackendGroup)
      (t : Option TargetGroup)
      → Shows client
          (get_folder_id (scope_of libs client cluster s))
          (get_lb_name libs (scope_of libs client cluster s))
          w'
          (some l)
          b
          t
      → Finds libs client cluster (made l w' bg w) (some l) b t
  unfolding get_lb_name generate_name made
  made-Finds l w' bg w b t h = h

  request_names :
      (bg : String)
      → ((lb_request libs client cluster (scope_of libs client cluster s) bg).folder_id
          ≡ get_folder_id (scope_of libs client cluster s))
        × ((lb_request libs client cluster (scope_of libs client cluster s) bg).name
            ≡ get_lb_name libs (scope_of libs client cluster s))
  unfolding Balancer.build
  request_names bg = (refl, refl)

  lb_made :
      (lb : Option LoadBalancer) (bg : BackendGroup) (tg : TargetGroup) (w : Recorded W)
      → Finds libs client cluster (at w) lb (some bg) (some tg)
      → Settled libs client cluster (reconcile_alb libs (recording client) cluster bg.id (at w)).1
  lb_made (some l) bg tg w h =
      subst (λ x. Settled libs client cluster x)
        (sym (lb_found libs client cluster (at w) h l bg.id refl))
        (lb-Settled libs client cluster (at w) (some l) bg tg h (inl (l, refl)))
  lb_made none bg tg w h =
      elim (Bool-cases (is_unrecoverable libs (scope_of libs client cluster s))) [
        | inl u ↦
            subst (λ x. Settled libs client cluster x)
              (sym (lb_refused libs client cluster (at w) h bg.id refl u))
              (lb-Settled libs client cluster (at w) none bg tg h (inr (refl, u)))
        | inr recoverable ↦
            let (folder, name) = request_names bg.id in
            let (l, w', e, h') =
              C.lb_created w.world bg tg
                (lb_request libs client cluster (scope_of libs client cluster s) bg.id) h folder
                name in
            subst (λ x. Settled libs client cluster x)
              (sym (lb_run l w' bg.id (some bg) (some tg) w h recoverable e))
              (lb-Settled libs client cluster (made l w' bg.id w) (some l) bg tg
                (made-Finds l w' bg.id w (some bg) (some tg) h') (inl (l, refl)))
      ]

  service_run :
      (t : TargetGroup) (b : BackendGroup) (w w' : Recorded W)
      → reconcile_alb_target_group libs (recording client) (scope_of libs client cluster s) s.world
        ≡ (ok t.id, w)
      → reconcile_alb_backend_group libs (recording client) (scope_of libs client cluster s) t.id w
        ≡ (ok b.id, w')
      → (reconcile_alb_service libs (recording client) cluster s).1
        ≡ (reconcile_alb libs (recording client) cluster b.id (at w')).1
  unfolding reconcile_alb_service
  service_run t b w w' e e' = rw (e, e') refl

  -- In a cloud that keeps what it creates, after one `reconcileALBService` the two groups are
  -- found, and the load balancer is found unless the endpoint of the cluster is set and the
  -- address of the listener was left to the cloud; and another `reconcileALBService` asks for
  -- nothing, and leaves the cloud and the cluster as they are.
  pub reconcile_alb_service-Settled :
      (lb : Option LoadBalancer) (bg : Option BackendGroup) (tg : Option TargetGroup)
      → Finds libs client cluster s lb bg tg
      → Settled libs client cluster (reconcile_alb_service libs (recording client) cluster s).1
  reconcile_alb_service-Settled lb bg tg h =
      let (t, w, e, h') = tg_made lb bg tg s.world h in
      let (b, w', e', h'') = bg_made lb bg t w h' in
      subst (λ x. Settled libs client cluster x) (sym (service_run t b w w' e e'))
        (lb_made lb b t w' h'')
