-- ===== src/LoadBalancer/Alb/Creation.antt =====
-- alb.go: `reconcileALBService` and the three steps that it makes in turn.
pub mod Calls
pub mod Listener
pub mod Settling
pub mod Settled
use cluster_api_provider_yan.Prelude.{
  String, ◌==◌, Bool, not, ◌&&◌, Option, none, some, ◌∷◌, if◌then◌else◌,
}
use cluster_api_provider_yan.Prelude.Int.{ℤ, pos, eqz}
use cluster_api_provider_yan.Exec.{Exec, pure, raise, modify, ◌>>=◌, ◌>>◌}
use cluster_api_provider_yan.Exec.Errors.{incorrect_address, incorrect_port, load_balancer_missing}
use cluster_api_provider_yan.Api.Conditions.{mark_true, condition_ready, Mark}
use cluster_api_provider_yan.Cloud.{Client}
use cluster_api_provider_yan.Cloud.Messages.{LoadBalancer, TargetGroup, BackendGroup}
use cluster_api_provider_yan.Kube.{Cluster, Libraries}
use cluster_api_provider_yan.Scope.Cluster.{
  ClusterScope, ClusterState, name, get_folder_id, get_lb_name, get_lb_spec, get_labels,
  get_network_id, control_plane_endpoint, in_scope,
}
use cluster_api_provider_yan.LoadBalancer.Builders.TargetGroup
use cluster_api_provider_yan.LoadBalancer.Builders.TargetGroup.{AlbTargetGroupBuilder}
use cluster_api_provider_yan.LoadBalancer.Builders.BackendGroup
use cluster_api_provider_yan.LoadBalancer.Builders.BackendGroup.{AlbBackendGroupBuilder}
use cluster_api_provider_yan.LoadBalancer.Builders.Balancer
use cluster_api_provider_yan.LoadBalancer.Builders.Balancer.{AlbBuilder}
use cluster_api_provider_yan.LoadBalancer.Alb.Reads.{
  get_internal_address, get_internal_port, is_state_active,
}

-- `conditions.MarkTrue` and its kin on the cluster object
abbrev pub mark : {W : Type 0} → Mark → ClusterState W → ClusterState W
mark m s =
    let yc = s.yandex_cluster in
    let status = yc.status in
    record s {
      yandex_cluster = record yc { status = record status { conditions = m ∷ status.conditions } };
    }

-- An address or a port that the cloud reports and that is not the one asked for is an error. The
-- address "" and the port 0 are no report.
unfoldable pub check_listener : {W : Type 0} → ClusterScope → String → ℤ → Exec W (Unit {0})
check_listener c address port =
    let wanted = (get_lb_spec c).listener in
    if not (address == "") && not (wanted.address == address)
    then raise (incorrect_address (name c) address wanted.address)
    else if not (eqz port (pos 0)) && not (eqz wanted.port port)
    then raise (incorrect_port (name c) port wanted.port)
    else pure tt

-- The case of an existing load balancer; only an active one with a wanted address is checked.
unfoldable pub reconcile_existing : {W : Type 0} → ClusterScope → LoadBalancer → Exec W (Unit {0})
unfolding check_listener
reconcile_existing c lb =
    if is_state_active lb.status && not ((get_lb_spec c).listener.address == "")
    then (do
      address ← get_internal_address lb
      port ← get_internal_port lb
      check_listener c address port)
    else pure tt

module _ (libs : Libraries) where
  abbrev pub target_group_builder : ClusterScope → AlbTargetGroupBuilder
  target_group_builder c = TargetGroup.with_labels (get_labels c) (
      TargetGroup.with_folder (get_folder_id c) (
        TargetGroup.with_lb_name (get_lb_name libs c)
          (TargetGroup.with_cluster (name c) (TargetGroup.new (get_lb_spec c)))))

  abbrev pub backend_group_builder : ClusterScope → String → AlbBackendGroupBuilder
  backend_group_builder c target_group_id = BackendGroup.with_labels (get_labels c) (
      BackendGroup.with_target_group_id target_group_id (
        BackendGroup.with_folder (get_folder_id c) (
          BackendGroup.with_lb_name (get_lb_name libs c)
            (BackendGroup.with_cluster (name c) (BackendGroup.new (get_lb_spec c))))))

  abbrev pub balancer_builder : ClusterScope → String → AlbBuilder
  balancer_builder c backend_group_id = Balancer.with_labels (get_labels c) (
      Balancer.with_network_id (get_network_id c) (
        Balancer.with_backend_group_id backend_group_id (
          Balancer.with_folder (get_folder_id c) (
            Balancer.with_name (get_lb_name libs c)
              (Balancer.with_cluster (name c) (Balancer.new (get_lb_spec c)))))))

  -- The endpoint of the cluster is set already, and the address was left to the cloud.
  abbrev pub is_unrecoverable : ClusterScope → Bool
  is_unrecoverable c =
      libs.is_endpoint_valid (control_plane_endpoint c) && (get_lb_spec c).listener.address == ""

module _ {W : Type 0} (libs : Libraries) (client : Client W) where
  tg_id : ClusterScope → Option TargetGroup → Exec W String
  tg_id c none = client.alb_target_group_create (TargetGroup.build (target_group_builder libs c))
  tg_id c (some tg) = pure tg.id

  unfoldable pub reconcile_alb_target_group : ClusterScope → Exec W String
  unfolding tg_id
  reconcile_alb_target_group c = do
    tg ←
        client.alb_target_group_get_by_name (get_folder_id c)
          (TargetGroup.get_name (target_group_builder libs c))
    tg_id c tg

  bg_id : ClusterScope → String → Option BackendGroup → Exec W String
  bg_id c target_group_id none =
      client.alb_backend_group_create
        (BackendGroup.build (backend_group_builder libs c target_group_id))
  bg_id c target_group_id (some bg) = pure bg.id

  unfoldable pub reconcile_alb_backend_group : ClusterScope → String → Exec W String
  unfolding bg_id
  reconcile_alb_backend_group c target_group_id = do
    bg ←
        client.alb_backend_group_get_by_name (get_folder_id c)
          (BackendGroup.get_name (backend_group_builder libs c target_group_id))
    bg_id c target_group_id bg

  -- The last two cases of the `switch`, where there is no load balancer.
  unfoldable pub create_missing : Cluster → String → Exec (ClusterState W) (Unit {0})
  create_missing cluster backend_group_id = do
    let create = λ (c : ClusterScope).
        client.alb_create (Balancer.build (balancer_builder libs c backend_group_id))
    in_scope cluster create
    modify (mark (mark_true condition_ready))

  unfoldable pub reconcile_missing : Cluster → String → Exec (ClusterState W) (Unit {0})
  unfolding create_missing
  reconcile_missing cluster backend_group_id s =
      let c : ClusterScope = record { cluster = cluster; yandex_cluster = s.yandex_cluster } in
      if is_unrecoverable libs c
      then raise (load_balancer_missing s.yandex_cluster.name) s
      else create_missing cluster backend_group_id s

  reconcile_found : Cluster → String → Option LoadBalancer → Exec (ClusterState W) (Unit {0})
  unfolding reconcile_missing
  reconcile_found cluster backend_group_id none = reconcile_missing cluster backend_group_id
  reconcile_found cluster backend_group_id (some lb) =
      in_scope cluster (λ c. reconcile_existing c lb)

  unfoldable pub reconcile_alb : Cluster → String → Exec (ClusterState W) (Unit {0})
  unfolding reconcile_found
  reconcile_alb cluster backend_group_id = do
    lb ← in_scope cluster (λ c.
        client.alb_get_by_name (get_folder_id c)
          (Balancer.get_name (balancer_builder libs c backend_group_id)))
    reconcile_found cluster backend_group_id lb

  unfoldable pub reconcile_alb_service : Cluster → Exec (ClusterState W) (Unit {0})
  reconcile_alb_service cluster = do
    target_group_id ← in_scope cluster reconcile_alb_target_group
    backend_group_id ← in_scope cluster (λ c. reconcile_alb_backend_group c target_group_id)
    reconcile_alb cluster backend_group_id
