-- ===== src/LoadBalancer/Alb/Creation/Listener.antt =====
-- When `reconcileALB` accepts an existing load balancer.
use cluster_api_provider_yan.Prelude.{String, ◌≡◌, ◌≢◌, ◌⊎◌, ◌↔◌, true, arith, eq_iff}
use cluster_api_provider_yan.Prelude.Int.{ℤ, pos, eqz_iff}
use cluster_api_provider_yan.Prelude.Text.{ne_test}
use cluster_api_provider_yan.Exec.{ok}
use cluster_api_provider_yan.Cloud.Messages.{LoadBalancer}
use cluster_api_provider_yan.Scope.Cluster.{ClusterScope, get_lb_spec}
use cluster_api_provider_yan.LoadBalancer.Alb.Reads.{
  get_internal_address, get_internal_port, is_state_active,
}
use cluster_api_provider_yan.LoadBalancer.Alb.Creation.{check_listener, reconcile_existing}

module _ {W : Type 0} (c : ClusterScope) where
  check_listener_ok :
      (address : String) (port : ℤ) (w : W)
      → (check_listener c address port w ≡ (ok tt, w)) ↔ (
          ((address ≡ "") ⊎ (address ≡ (get_lb_spec c).listener.address))
          × ((port ≡ pos 0) ⊎ (port ≡ (get_lb_spec c).listener.port)))
  unfolding check_listener
  check_listener_ok address port w =
      let wanted = (get_lb_spec c).listener in
      ground (
        arith,
        eq_iff address "",
        eq_iff wanted.address address,
        eqz_iff port (pos 0),
        eqz_iff wanted.port port,
      )

  -- An active load balancer with a listener that can be read is accepted, where the specification
  -- names an address, exactly if the address that the cloud reports is that address or empty, and
  -- the port that it reports is the specification's or 0.
  pub reconcile_existing_ok_iff :
      (lb : LoadBalancer) (address : String) (port : ℤ) (w : W)
      → is_state_active lb.status ≡ true
      → (get_lb_spec c).listener.address ≢ ""
      → get_internal_address lb w ≡ (ok address, w)
      → get_internal_port lb w ≡ (ok port, w)
      → (reconcile_existing c lb w ≡ (ok tt, w)) ↔ (
          ((address ≡ "") ⊎ (address ≡ (get_lb_spec c).listener.address))
          × ((port ≡ pos 0) ⊎ (port ≡ (get_lb_spec c).listener.port)))
  unfolding reconcile_existing
  reconcile_existing_ok_iff lb address port w act named ha hp =
      rw (act, ne_test _ _ named, ha, hp) (check_listener_ok address port w)
