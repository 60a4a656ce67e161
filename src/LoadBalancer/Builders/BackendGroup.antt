-- ===== src/LoadBalancer/Builders/BackendGroup.antt =====
-- `ALBBackendGroupBuilder` of alb_builders.go
pub mod Durations
use cluster_api_provider_yan.Prelude.{String, ◌<>◌, false, Option, none, List, [], ◌∷◌}
use cluster_api_provider_yan.Prelude.Int.{ℤ, to_int64, scale}
use cluster_api_provider_yan.Api.Cluster.{Labels, LoadBalancerSpec}
use cluster_api_provider_yan.Cloud.Requests.{
  CreateBackendGroupRequest, HealthCheck, LoadBalancingConfig, StreamBackend, round_robin,
}

pub record AlbBackendGroupBuilder : Type 0 where
  pub lbs : LoadBalancerSpec
  pub folder_id : String
  pub cluster_name : String
  pub name : String
  pub target_group_id : String
  pub additional_labels : Option Labels

-- `NewALBBackendGroupBuilder`: the other fields have their zero values.
abbrev pub new : LoadBalancerSpec → AlbBackendGroupBuilder
new lbs = record {
  lbs = lbs;
  folder_id = "";
  cluster_name = "";
  name = "";
  target_group_id = "";
  additional_labels = none;
}

abbrev pub with_cluster : String → AlbBackendGroupBuilder → AlbBackendGroupBuilder
with_cluster v a = record a { cluster_name = v }

abbrev pub with_folder : String → AlbBackendGroupBuilder → AlbBackendGroupBuilder
with_folder v a = record a { folder_id = v }

abbrev pub with_lb_name : String → AlbBackendGroupBuilder → AlbBackendGroupBuilder
with_lb_name v a = record a { name = v }

abbrev pub with_target_group_id : String → AlbBackendGroupBuilder → AlbBackendGroupBuilder
with_target_group_id v a = record a { target_group_id = v }

abbrev pub with_labels : Option Labels → AlbBackendGroupBuilder → AlbBackendGroupBuilder
with_labels v a = record a { additional_labels = v }

abbrev pub create_load_balancing_config : LoadBalancingConfig
create_load_balancing_config = record { mode = round_robin; strict_locality = false }

-- `time.Second * time.Duration(n)`: an `int64` number of nanoseconds, which wraps around.
unfoldable pub seconds : ℤ → ℤ
unfolding to_int64
seconds n = to_int64 (scale 1000000000 n)

unfoldable pub create_health_checks : AlbBackendGroupBuilder → List HealthCheck
unfolding seconds
create_health_checks a =
    record {
      timeout = seconds a.lbs.healthcheck.timeout_sec;
      interval = seconds a.lbs.healthcheck.interval_sec;
      unhealthy_threshold = a.lbs.healthcheck.threshold;
      healthy_threshold = a.lbs.healthcheck.threshold;
    }
    ∷ []

-- The stream backend that `Build` sets up.
abbrev pub stream_backend : AlbBackendGroupBuilder → StreamBackend
stream_backend a = record {
  name = a.name;
  port = a.lbs.backend_port;
  target_group_ids = a.target_group_id ∷ [];
  load_balancing_config = create_load_balancing_config;
  healthchecks = create_health_checks a;
}

-- `Build`, which never fails. Labels are set only if they are not nil.
abbrev pub build : AlbBackendGroupBuilder → CreateBackendGroupRequest
build a = record {
  folder_id = a.folder_id;
  name = a.name;
  description = "k8s api " <> (a.cluster_name <> " backend");
  labels = a.additional_labels;
  backends = stream_backend a ∷ [];
}

abbrev pub get_name : AlbBackendGroupBuilder → String
get_name a = a.name
