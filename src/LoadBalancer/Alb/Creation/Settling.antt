-- ===== src/LoadBalancer/Alb/Creation/Settling.antt =====
-- `reconcileALBService` run again, in a cloud that keeps what it creates.
use cluster_api_provider_yan.Prelude.{
  String, ◌≡◌, refl, ap, true, Option, none, some, ◌⊎◌, inl, inr,
}
use cluster_api_provider_yan.Exec.{ok}
use cluster_api_provider_yan.Cloud.{Client}
use cluster_api_provider_yan.Cloud.Messages.{LoadBalancer, BackendGroup, TargetGroup}
use cluster_api_provider_yan.Cloud.Requests.{
  CreateTargetGroupRequest, CreateBackendGroupRequest, CreateLoadBalancerRequest,
}
use cluster_api_provider_yan.Cloud.Recording.{Recorded, recording}
use cluster_api_provider_yan.LoadBalancer.Builders.TargetGroup
use cluster_api_provider_yan.LoadBalancer.Builders.BackendGroup
use cluster_api_provider_yan.LoadBalancer.Builders.Balancer
use cluster_api_provider_yan.Kube.{Cluster, Libraries}
use cluster_api_provider_yan.Scope.Cluster.{ClusterScope, ClusterState, get_folder_id, get_lb_name}
use cluster_api_provider_yan.LoadBalancer.Alb.Lookups.{Shows}
use cluster_api_provider_yan.LoadBalancer.Alb.Creation.{
  is_unrecoverable, target_group_builder, backend_group_builder, balancer_builder,
  reconcile_alb_target_group, reconcile_alb_backend_group, reconcile_alb, reconcile_alb_service,
}
use cluster_api_provider_yan.LoadBalancer.Alb.Creation.Calls.{reconcile_existing_keeps}

-- What the cloud documents of creations: the ID that a creation returns is that of an object that
-- the lookup of its name finds from then on, and the other objects stay.
pub record Creates {W : Type 0} (client : Client W) (folder name : String) : Type 0 where
  pub tg_created :
      (w : W) (lb : Option LoadBalancer) (bg : Option BackendGroup) (req : CreateTargetGroupRequest)
      → Shows client folder name w lb bg none
      → req.folder_id ≡ folder
      → req.name ≡ name
      → (tg : TargetGroup) × (w' : W) × (client.alb_target_group_create req w ≡ (ok tg.id, w'))
        × Shows client folder name w' lb bg (some tg)
  pub bg_created :
      (w : W) (lb : Option LoadBalancer) (tg : TargetGroup) (req : CreateBackendGroupRequest)
      → Shows client folder name w lb none (some tg)
      → req.folder_id ≡ folder
      → req.name ≡ name
      → (bg : BackendGroup) × (w' : W) × (client.alb_backend_group_create req w ≡ (ok bg.id, w'))
        × Shows client folder name w' lb (some bg) (some tg)
  pub lb_created :
      (w : W) (bg : BackendGroup) (tg : TargetGroup) (req : CreateLoadBalancerRequest)
      → Shows client folder name w none (some bg) (some tg)
      → req.folder_id ≡ folder
      → req.name ≡ name
      → (lb : LoadBalancer) × (w' : W) × (client.alb_create req w ≡ (ok lb.id, w'))
        × Shows client folder name w' (some lb) (some bg) (some tg)

module _ {W : Type 0} (libs : Libraries) (client : Client W) (cluster : Cluster) where
  abbrev pub run : ClusterState (Recorded W) → ClusterState (Recorded W)
  run s = (reconcile_alb_service libs (recording client) cluster s).1

  abbrev pub tg_request : ClusterScope → CreateTargetGroupRequest
  tg_request c = TargetGroup.build (target_group_builder libs c)

  abbrev pub bg_request : ClusterScope → String → CreateBackendGroupRequest
  bg_request c target_group_id = BackendGroup.build (backend_group_builder libs c target_group_id)

  abbrev pub lb_request : ClusterScope → String → CreateLoadBalancerRequest
  lb_request c backend_group_id = Balancer.build (balancer_builder libs c backend_group_id)

  abbrev pub scope_of : ClusterState (Recorded W) → ClusterScope
  scope_of s = record { cluster = cluster; yandex_cluster = s.yandex_cluster }

  -- What is found for the cluster of a state.
  abbrev pub Finds :
      ClusterState (Recorded W)
      → Option LoadBalancer
      → Option BackendGroup
      → Option TargetGroup
      → Type 0
  Finds s = Shows client (get_folder_id (scope_of s)) (get_lb_name libs (scope_of s)) s.world.world

  module _ (s : ClusterState (Recorded W)) {lb : Option LoadBalancer} {bg : Option BackendGroup}
      {tg : Option TargetGroup} (h : Finds s lb bg tg) where
    pub tg_found :
        (t : TargetGroup)
        → tg ≡ some t
        → reconcile_alb_target_group libs (recording client) (scope_of s) s.world
          ≡ (ok t.id, s.world)
    unfolding reconcile_alb_target_group
    tg_found t e = rw (h.shows_tg, e) refl

    pub bg_found :
        (b : BackendGroup) (target_group_id : String)
        → bg ≡ some b
        → reconcile_alb_backend_group libs (recording client) (scope_of s) target_group_id s.world
          ≡ (ok b.id, s.world)
    unfolding reconcile_alb_backend_group
    bg_found b target_group_id e = rw (h.shows_bg, e) refl

    pub lb_found :
        (l : LoadBalancer) (backend_group_id : String)
        → lb ≡ some l
        → (reconcile_alb libs (recording client) cluster backend_group_id s).1 ≡ s
    unfolding reconcile_alb
    lb_found l backend_group_id e =
        rw (h.shows_lb, e)
          (ap (λ (w : Recorded W). record s { world = w })
            (reconcile_existing_keeps (scope_of s) l s.world))

    pub lb_refused :
        (backend_group_id : String)
        → lb ≡ none
        → is_unrecoverable libs (scope_of s) ≡ true
        → (reconcile_alb libs (recording client) cluster backend_group_id s).1 ≡ s
    unfolding reconcile_alb
    lb_refused backend_group_id e u = rw (h.shows_lb, e, u) refl

  -- The load balancer is there, unless it is not to be made.
  abbrev pub Held : ClusterState (Recorded W) → Option LoadBalancer → Type 0
  Held s lb =
      ((found : LoadBalancer) × (lb ≡ some found))
      ⊎ ((lb ≡ none) × (is_unrecoverable libs (scope_of s) ≡ true))

  lb-Held :
      (s : ClusterState (Recorded W)) (lb : Option LoadBalancer) (bg : Option BackendGroup)
      (tg : Option TargetGroup) (backend_group_id : String)
      → Finds s lb bg tg
      → Held s lb
      → (reconcile_alb libs (recording client) cluster backend_group_id s).1 ≡ s
  lb-Held s lb bg tg backend_group_id h (inl (l, e)) = lb_found s h l backend_group_id e
  lb-Held s lb bg tg backend_group_id h (inr (e, u)) = lb_refused s h backend_group_id e u

  -- Then nothing is due.
  rests :
      (s : ClusterState (Recorded W)) (lb : Option LoadBalancer) (bg : BackendGroup)
      (tg : TargetGroup)
      → Finds s lb (some bg) (some tg)
      → Held s lb
      → (reconcile_alb_service libs (recording client) cluster s).1 ≡ s
  unfolding reconcile_alb_service
  rests s lb bg tg h held =
      rw (tg_found s h tg refl, bg_found s h bg tg.id refl)
        (lb-Held s lb (some bg) (some tg) bg.id h held)

  -- What is found where nothing is due any more: another call leaves the cloud, the cluster and the
  -- calls that were noted as they are.
  pub record Settled (s : ClusterState (Recorded W)) : Type 0 where
    pub lb : Option LoadBalancer
    pub bg : BackendGroup
    pub tg : TargetGroup
    pub finds : Finds s lb (some bg) (some tg)
    pub held : Held s lb
    pub unchanged : (reconcile_alb_service libs (recording client) cluster s).1 ≡ s

  pub lb-Settled :
      (s : ClusterState (Recorded W)) (lb : Option LoadBalancer) (bg : BackendGroup)
      (tg : TargetGroup)
      → Finds s lb (some bg) (some tg)
      → Held s lb
      → Settled s
  lb-Settled s lb bg tg h held = record {
    lb = lb;
    bg = bg;
    tg = tg;
    finds = h;
    held = held;
    unchanged = rests s lb bg tg h held;
  }
