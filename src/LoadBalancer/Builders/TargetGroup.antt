-- ===== src/LoadBalancer/Builders/TargetGroup.antt =====
-- `ALBTargetGroupBuilder` of alb_builders.go
use cluster_api_provider_yan.Prelude.{String, ◌<>◌, Option, none, some, [], ◌∷◌}
use cluster_api_provider_yan.Api.Cluster.{Labels, LoadBalancerSpec}
use cluster_api_provider_yan.Cloud.Requests.{CreateTargetGroupRequest, TargetsRequest}

pub record AlbTargetGroupBuilder : Type 0 where
  pub lbs : LoadBalancerSpec
  pub folder_id : String
  pub cluster_name : String
  pub name : String
  pub subnet_id : String
  pub target_group_id : String
  pub ip_address : String
  pub additional_labels : Option Labels

-- `NewALBTargetGroupBuilder`: the other fields have their zero values.
abbrev pub new : LoadBalancerSpec → AlbTargetGroupBuilder
new lbs = record {
  lbs = lbs;
  folder_id = "";
  cluster_name = "";
  name = "";
  subnet_id = "";
  target_group_id = "";
  ip_address = "";
  additional_labels = none;
}

abbrev pub with_cluster : String → AlbTargetGroupBuilder → AlbTargetGroupBuilder
with_cluster v a = record a { cluster_name = v }

abbrev pub with_folder : String → AlbTargetGroupBuilder → AlbTargetGroupBuilder
with_folder v a = record a { folder_id = v }

abbrev pub with_lb_name : String → AlbTargetGroupBuilder → AlbTargetGroupBuilder
with_lb_name v a = record a { name = v }

abbrev pub with_labels : Option Labels → AlbTargetGroupBuilder → AlbTargetGroupBuilder
with_labels v a = record a { additional_labels = v }

abbrev pub with_subnet_id : String → AlbTargetGroupBuilder → AlbTargetGroupBuilder
with_subnet_id v a = record a { subnet_id = v }

abbrev pub with_target_group_id : String → AlbTargetGroupBuilder → AlbTargetGroupBuilder
with_target_group_id v a = record a { target_group_id = v }

abbrev pub with_ip : String → AlbTargetGroupBuilder → AlbTargetGroupBuilder
with_ip v a = record a { ip_address = v }

-- `Build`, which never fails. Labels are set only if they are not nil.
abbrev pub build : AlbTargetGroupBuilder → CreateTargetGroupRequest
build a = record {
  folder_id = a.folder_id;
  name = a.name;
  description = "k8s api " <> (a.cluster_name <> " target");
  labels = a.additional_labels;
}

-- `BuildAddTargetRequest` and `BuildRemoveTargetRequest` fill the same fields.
abbrev targets_request : AlbTargetGroupBuilder → String → TargetsRequest
targets_request a address = record {
  target_group_id = a.target_group_id;
  targets = record { address_type = some address; subnet_id = a.subnet_id } ∷ [];
}

abbrev pub build_add_target_request : AlbTargetGroupBuilder → String → TargetsRequest
build_add_target_request a address = targets_request a address

abbrev pub build_remove_target_request : AlbTargetGroupBuilder → String → TargetsRequest
build_remove_target_request a address = targets_request a address

abbrev pub get_name : AlbTargetGroupBuilder → String
get_name a = a.name
