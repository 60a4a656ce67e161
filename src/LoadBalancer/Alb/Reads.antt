-- ===== src/LoadBalancer/Alb/Reads.antt =====
-- alb.go: what the service reads of a load balancer and of a target group (`getInternalAddress`,
-- `getInternalPort`, `describeALB`, `isActiveALB`, `isAddressRegisteredALB`).
use cluster_api_provider_yan.Prelude.{
  String, ◌==◌, Bool, true, false, ◌&&◌, Option, none, some, List, [], ◌∷◌,
}
use cluster_api_provider_yan.Prelude.Int.{ℤ, to_int32}
use cluster_api_provider_yan.Prelude.Lists.{any}
use cluster_api_provider_yan.Exec.{Result, ok, panic, Exec, pure, fault, lift, ◌>>=◌}
use cluster_api_provider_yan.Api.Cluster.{LoadBalancerStatus}
use cluster_api_provider_yan.Cloud.{Client}
use cluster_api_provider_yan.Cloud.Messages.{
  LoadBalancerState, active, Address, internal_ipv4, other_kind, LoadBalancer, Target, TargetGroup,
}
use cluster_api_provider_yan.Kube.{Libraries}
use cluster_api_provider_yan.Scope.Cluster.{ClusterScope, get_folder_id, get_lb_name}

-- `xs[0]`
abbrev pub first : {A : Type 0} → List A → Result A
first [] = panic
first (x ∷ _) = ok x

-- `GetInternalIpv4Address().Address`: the getter of another kind of address gives nil.
abbrev ipv4_of : Address → Result String
ipv4_of (internal_ipv4 a) = ok a
ipv4_of other_kind = panic

module _ {W : Type 0} where
  unfoldable pub get_internal_address : LoadBalancer → Exec W String
  get_internal_address lb = do
    listener ← lift (first lb.listeners)
    endpoint ← lift (first listener.endpoints)
    address ← lift (first endpoint.addresses)
    lift (ipv4_of address)

  unfoldable pub get_internal_port : LoadBalancer → Exec W ℤ
  unfolding to_int32
  get_internal_port lb = do
    listener ← lift (first lb.listeners)
    endpoint ← lift (first listener.endpoints)
    port ← lift (first endpoint.ports)
    pure (to_int32 port)

-- `lb.GetStatus() == alb.LoadBalancer_ACTIVE`, where `lb` may be nil
abbrev pub is_state_active : LoadBalancerState → Bool
is_state_active active = true
is_state_active _ = false

abbrev pub is_lb_active : Option LoadBalancer → Bool
is_lb_active none = false
is_lb_active (some lb) = is_state_active lb.status

-- `reflect.DeepEqual(target.AddressType, &alb.Target_IpAddress{IpAddress: addr})`
abbrev pub has_address : Option String → String → Bool
has_address none addr = false
has_address (some a) addr = a == addr

unfoldable pub is_address_registered_alb : String → String → TargetGroup → Bool
is_address_registered_alb addr subnet_id tg =
    any (λ (t : Target). has_address t.address_type addr && t.subnet_id == subnet_id) tg.targets

module _ {W : Type 0} (libs : Libraries) (client : Client W) where
  -- `lb` is dereferenced without a test for nil.
  describe_found : Option LoadBalancer → Exec W LoadBalancerStatus
  describe_found none = fault
  describe_found (some lb) = do
    address ← get_internal_address lb
    port ← get_internal_port lb
    pure (record { name = ""; listener_address = address; listener_port = port })

  unfoldable pub describe_alb : ClusterScope → Exec W LoadBalancerStatus
  unfolding describe_found
  describe_alb c = do
    lb ← client.alb_get_by_name (get_folder_id c) (get_lb_name libs c)
    describe_found lb

  unfoldable pub is_active_alb : ClusterScope → Exec W Bool
  is_active_alb c = do
    lb ← client.alb_get_by_name (get_folder_id c) (get_lb_name libs c)
    pure (is_lb_active lb)
