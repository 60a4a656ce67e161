-- ===== src/Webhooks/DeepEqual.antt =====
-- `reflect.DeepEqual` of two specifications of a load balancer (api/v1alpha1/yandexcluster_types.go):
-- a nil slice is not equal to an empty one.
use cluster_api_provider_yan.Prelude.{
  String, ◌==◌, ◌≡◌, ◌↔◌, eq_iff, Bool, true, false, ◌&&◌, Option, none, some, List, [], ◌∷◌, arith,
}
use cluster_api_provider_yan.Prelude.Int.{eqz, eqz_iff}
use cluster_api_provider_yan.Api.Cluster.{HealthcheckSpec, ListenerSpec, LoadBalancerSpec}

abbrev pub same_bool : Bool → Bool → Bool
same_bool true b = b
same_bool false true = false
same_bool false false = true

abbrev same_strings : List String → List String → Bool
same_strings [] [] = true
same_strings (x ∷ xs) (y ∷ ys) = let rest = same_strings xs ys in x == y && rest
same_strings _ _ = false

abbrev same_slice : Option (List String) → Option (List String) → Bool
same_slice none none = true
same_slice (some xs) (some ys) = same_strings xs ys
same_slice _ _ = false

unfoldable pub same_listener : ListenerSpec → ListenerSpec → Bool
same_listener a b =
    a.address == b.address
    && (eqz a.port b.port
        && (same_bool a.internal b.internal
            && (a.subnet.zone_id == b.subnet.zone_id && a.subnet.id == b.subnet.id)))

unfoldable pub same_healthcheck : HealthcheckSpec → HealthcheckSpec → Bool
same_healthcheck a b =
    eqz a.timeout_sec b.timeout_sec
    && (eqz a.interval_sec b.interval_sec && eqz a.threshold b.threshold)

unfoldable pub same_load_balancer : LoadBalancerSpec → LoadBalancerSpec → Bool
same_load_balancer a b =
    a.type == b.type
    && (a.name == b.name
        && (same_listener a.listener b.listener
            && (eqz a.backend_port b.backend_port
                && (same_healthcheck a.healthcheck b.healthcheck
                    && same_slice a.security_groups b.security_groups))))

pub same_bool_iff : (a b : Bool) → (same_bool a b ≡ true) ↔ (a ≡ b)
same_bool_iff true b = ground arith
same_bool_iff false true = ground arith
same_bool_iff false false = ground arith

same_strings_iff : (xs ys : List String) → (same_strings xs ys ≡ true) ↔ (xs ≡ ys)
same_strings_iff [] [] = ground arith
same_strings_iff [] (y ∷ ys) = ground arith
same_strings_iff (x ∷ xs) [] = ground arith
same_strings_iff (x ∷ xs) (y ∷ ys) = ground (arith, eq_iff x y, same_strings_iff xs ys)

same_slice_iff : (a b : Option (List String)) → (same_slice a b ≡ true) ↔ (a ≡ b)
same_slice_iff none none = ground arith
same_slice_iff none (some ys) = ground arith
same_slice_iff (some xs) none = ground arith
same_slice_iff (some xs) (some ys) = ground (arith, same_strings_iff xs ys)

same_listener_iff : (a b : ListenerSpec) → (same_listener a b ≡ true) ↔ (a ≡ b)
unfolding same_listener
same_listener_iff a b = ground (
  arith,
  eq_iff a.address b.address,
  eqz_iff a.port b.port,
  same_bool_iff a.internal b.internal,
  eq_iff a.subnet.zone_id b.subnet.zone_id,
  eq_iff a.subnet.id b.subnet.id,
)

same_healthcheck_iff : (a b : HealthcheckSpec) → (same_healthcheck a b ≡ true) ↔ (a ≡ b)
unfolding same_healthcheck
same_healthcheck_iff a b = ground (
  arith,
  eqz_iff a.timeout_sec b.timeout_sec,
  eqz_iff a.interval_sec b.interval_sec,
  eqz_iff a.threshold b.threshold,
)

-- Two specifications are deeply equal exactly if they are the same.
pub same_load_balancer_iff : (a b : LoadBalancerSpec) → (same_load_balancer a b ≡ true) ↔ (a ≡ b)
unfolding same_load_balancer
same_load_balancer_iff a b = ground (
  arith,
  eq_iff a.type b.type,
  eq_iff a.name b.name,
  same_listener_iff a.listener b.listener,
  eqz_iff a.backend_port b.backend_port,
  same_healthcheck_iff a.healthcheck b.healthcheck,
  same_slice_iff a.security_groups b.security_groups,
)
