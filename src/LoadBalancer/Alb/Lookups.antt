-- ===== src/LoadBalancer/Alb/Lookups.antt =====
-- A specification device: what the lookups of alb.go find.
use cluster_api_provider_yan.Prelude.{String, ◌≡◌, Option}
use cluster_api_provider_yan.Exec.{ok}
use cluster_api_provider_yan.Cloud.{Client}
use cluster_api_provider_yan.Cloud.Messages.{LoadBalancer, BackendGroup, TargetGroup}

-- What the lookups of the three objects of a name find in a world, which they leave as it is.
pub record Shows {W : Type 0} (client : Client W) (folder name : String) (w : W)
    (lb : Option LoadBalancer) (bg : Option BackendGroup) (tg : Option TargetGroup) : Type 0 where
  pub shows_lb : client.alb_get_by_name folder name w ≡ (ok lb, w)
  pub shows_bg : client.alb_backend_group_get_by_name folder name w ≡ (ok bg, w)
  pub shows_tg : client.alb_target_group_get_by_name folder name w ≡ (ok tg, w)
