-- ===== src/LoadBalancer/Builders/Balancer.antt =====
-- `ALBBuilder` of alb_builders.go
use cluster_api_provider_yan.Prelude.{
  String, ◌<>◌, ◌==◌, true, Option, none, some, List, [], ◌∷◌, if◌then◌else◌,
}
use cluster_api_provider_yan.Prelude.Int.{ℤ}
use cluster_api_provider_yan.Api.Cluster.{Labels, LoadBalancerSpec}
use cluster_api_provider_yan.Cloud.Requests.{CreateLoadBalancerRequest, ListenerSpec}

pub record AlbBuilder : Type 0 where
  pub lbs : LoadBalancerSpec
  pub folder_id : String
  pub network_id : String
  pub cluster_name : String
  pub name : String
  pub backend_group_id : String
  pub additional_labels : Option Labels

-- `NewALBBuilder`: the other fields have their zero values.
abbrev pub new : LoadBalancerSpec → AlbBuilder
new lbs = record {
  lbs = lbs;
  folder_id = "";
  network_id = "";
  cluster_name = "";
  name = "";
  backend_group_id = "";
  additional_labels = none;
}

abbrev pub with_cluster : String → AlbBuilder → AlbBuilder
with_cluster v a = record a { cluster_name = v }

abbrev pub with_folder : String → AlbBuilder → AlbBuilder
with_folder v a = record a { folder_id = v }

abbrev pub with_name : String → AlbBuilder → AlbBuilder
with_name v a = record a { name = v }

abbrev pub with_backend_group_id : String → AlbBuilder → AlbBuilder
with_backend_group_id v a = record a { backend_group_id = v }

abbrev pub with_network_id : String → AlbBuilder → AlbBuilder
with_network_id v a = record a { network_id = v }

abbrev pub with_labels : Option Labels → AlbBuilder → AlbBuilder
with_labels v a = record a { additional_labels = v }

-- `createListenerSpec`: the address is set only where it is not empty.
unfoldable pub create_listener_spec : AlbBuilder → String → ℤ → String → String → List ListenerSpec
create_listener_spec a address port subnet_id backend_id =
    record {
      name = a.name;
      endpoint_specs =
          record {
            ports = port ∷ [];
            address_specs =
                record {
                  address = if address == "" then none else some address;
                  subnet_id = subnet_id;
                }
                ∷ [];
          }
          ∷ [];
      backend_group_id = backend_id;
    }
    ∷ []

-- `Build`, which never fails. Labels are set only if they are not nil.
unfoldable pub build : AlbBuilder → CreateLoadBalancerRequest
unfolding create_listener_spec
build a = record {
  folder_id = a.folder_id;
  network_id = a.network_id;
  name = a.name;
  description = "k8s api " <> (a.cluster_name <> " loadbalancer");
  locations =
      record { zone_id = a.lbs.listener.subnet.zone_id; subnet_id = a.lbs.listener.subnet.id } ∷ [];
  labels = a.additional_labels;
  listener_specs =
      create_listener_spec a a.lbs.listener.address a.lbs.listener.port a.lbs.listener.subnet.id
        a.backend_group_id;
  disable_logs = true;
}

abbrev pub get_name : AlbBuilder → String
get_name a = a.name
