-- ===== src/LoadBalancer/Alb/Deletion/Order.antt =====
-- What `deleteALBService` has established when it says that all is deleted, and which deletions it
-- asks for.
use cluster_api_provider_yan.Prelude.{
  ◌≡◌, ◌↔◌, true, Option, none, some, List, [], ◌∷◌, ◌++◌, arith, if◌then◌else◌,
}
use cluster_api_provider_yan.Exec.{Result, ok}
use cluster_api_provider_yan.Cloud.{Client}
use cluster_api_provider_yan.Cloud.Messages.{LoadBalancer, BackendGroup, TargetGroup}
use cluster_api_provider_yan.Cloud.Recording.{
  Call, recording, delete_balancer, delete_backend_group, delete_target_group,
}
use cluster_api_provider_yan.Kube.{Libraries}
use cluster_api_provider_yan.Scope.Cluster.{ClusterScope, get_folder_id, get_lb_name}
use cluster_api_provider_yan.LoadBalancer.Alb.Deletion.{
  delete_alb_service, delete_application_load_balancer, delete_alb_backend_group,
  delete_alb_target_group, is_going,
}

module _ {W : Type 0} (libs : Libraries) (client : Client W) (c : ClusterScope) (w : W) where
  -- The lookups of the load balancer, the backend group and the target group, one after the other.
  abbrev pub lb_lookup : Result (Option LoadBalancer) × W
  lb_lookup = client.alb_get_by_name (get_folder_id c) (get_lb_name libs c) w

  abbrev pub bg_lookup : Result (Option BackendGroup) × W
  bg_lookup =
      client.alb_backend_group_get_by_name (get_folder_id c) (get_lb_name libs c) lb_lookup.1

  abbrev pub tg_lookup : Result (Option TargetGroup) × W
  tg_lookup = client.alb_target_group_get_by_name (get_folder_id c) (get_lb_name libs c) bg_lookup.1

  -- `deleteALBService` reports that everything is deleted, and leaves the world `w'`, exactly when
  -- the lookups of the load balancer, of the backend group and of the target group, made in this
  -- order, each succeed and find nothing, and the last leaves `w'`.
  pub delete_alb_service_deleted_iff :
      (w' : W)
      → (delete_alb_service libs client c w ≡ (ok true, w'))
        ↔ ((lb_lookup.0 ≡ ok none) × (bg_lookup.0 ≡ ok none) × (tg_lookup ≡ (ok none, w')))
  unfolding delete_alb_service delete_application_load_balancer delete_alb_backend_group
      delete_alb_target_group
  delete_alb_service_deleted_iff w' = (λ h. ground arith, λ h. ground arith)

  -- The one deletion that is due, from what the lookups find.
  abbrev pub due : Option LoadBalancer → Option BackendGroup → Option TargetGroup → List Call
  due (some lb) bg tg = if is_going lb.status then [] else delete_balancer lb.id ∷ []
  due none (some bg) tg = delete_backend_group bg.id ∷ []
  due none none (some tg) = delete_target_group tg.id ∷ []
  due none none none = []

  -- Where the lookups that `deleteALBService` makes succeed, it asks for exactly the deletion that
  -- is due: of the load balancer unless it is being deleted or stopped already, of the backend
  -- group only where there is no load balancer, of the target group only where there is neither;
  -- it asks for nothing else.
  pub delete_alb_service_calls :
      (calls : List Call) (lb : Option LoadBalancer) (bg : Option BackendGroup)
      (tg : Option TargetGroup)
      → lb_lookup.0 ≡ ok lb
      → bg_lookup.0 ≡ ok bg
      → tg_lookup.0 ≡ ok tg
      → (delete_alb_service libs (recording client) c (record { world = w; calls = calls })).1.calls
        ≡ due lb bg tg ++ calls
  unfolding delete_alb_service delete_application_load_balancer delete_alb_backend_group
      delete_alb_target_group
  delete_alb_service_calls calls lb bg tg hl hb ht = ground arith
