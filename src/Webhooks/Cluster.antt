-- ===== src/Webhooks/Cluster.antt =====
-- api/v1alpha1/yandexcluster_webhook.go: the validation of a YandexCluster.
pub mod Updates
pub use cluster_api_provider_yan.Webhooks.Verdicts.{
  FieldError, type_unsupported, address_not_ipv4, endpoint_empty, host_invalid, port_invalid,
  load_balancer_immutable, endpoint_immutable, Verdict, admitted, bad_request, invalid, error_if,
  verdict,
}
use cluster_api_provider_yan.Prelude.{
  String, ◌==◌, Bool, true, false, not, ◌&&◌, ◌||◌, Option, none, some, List, [], ◌∷◌, ◌++◌,
  if◌then◌else◌,
}
use cluster_api_provider_yan.Prelude.Int.{ℤ, pos, eqz, ltz}
use cluster_api_provider_yan.Webhooks.DeepEqual.{same_load_balancer}
use cluster_api_provider_yan.Api.Cluster.{
  ApiEndpoint, LoadBalancerSpec, YandexCluster, load_balancer_type_nlb,
}

pub data AddrType : Type 0 where
  unknown fqdn ipv4 ipv6 : AddrType

-- `Is4` and `Is6` of a `netip.Addr`, of which at most one holds.
pub data AddrKind : Type 0 where
  is_4 is_6 neither : AddrKind

-- What the validation asks of package net: `netip.ParseAddr`, and whether `net.LookupHost` returns no
-- error.
pub record Network : Type 0 where
  pub parse_addr : String → Option AddrKind
  pub lookup_host : String → Bool

-- `reflect.DeepEqual` of two endpoints
abbrev pub same_endpoint : ApiEndpoint → ApiEndpoint → Bool
same_endpoint a b = a.host == b.host && eqz a.port b.port

abbrev pub no_endpoint : ApiEndpoint
no_endpoint = record { host = ""; port = pos 0 }

module _ (net : Network) where
  abbrev kind_of : String → Option AddrKind → AddrType
  kind_of s none = if net.lookup_host s then fqdn else unknown
  kind_of s (some is_4) = ipv4
  kind_of s (some is_6) = ipv6
  kind_of s (some neither) = unknown

  unfoldable pub get_addr_type : String → AddrType
  get_addr_type s = kind_of s (net.parse_addr s)

  abbrev pub is_ipv4 : String → Bool
  is_ipv4 s = elim (get_addr_type s) [ ipv4 ↦ true | _ ↦ false ]

  abbrev pub is_ipv4_or_fqdn : String → Bool
  is_ipv4_or_fqdn s = elim (get_addr_type s) [ ipv4 ↦ true | fqdn ↦ true | _ ↦ false ]

  unfoldable pub is_control_plane_endpoint_valid : ApiEndpoint → List FieldError
  is_control_plane_endpoint_valid cp =
      error_if (cp.host == "" || eqz cp.port (pos 0)) (endpoint_empty cp.port)
      ++ (error_if (not (is_ipv4_or_fqdn cp.host)) (host_invalid cp.host)
          ++ error_if (ltz cp.port (pos 1) || ltz (pos 65535) cp.port) (port_invalid cp.port))

  unfoldable pub validate_create : YandexCluster → Verdict
  validate_create c =
      let lb = c.spec.load_balancer in
      let endpoint = c.spec.control_plane_endpoint in
      verdict c.name (
        error_if (lb.type == load_balancer_type_nlb) (type_unsupported lb.type)
        ++ (error_if (not (lb.listener.address == "") && not (is_ipv4 lb.listener.address))
              (address_not_ipv4 lb.listener.address)
            ++ (if same_endpoint endpoint no_endpoint
                then []
                else is_control_plane_endpoint_valid endpoint)))

  -- The endpoint may be changed only where it was not set.
  unfoldable pub endpoint_errors : ApiEndpoint → ApiEndpoint → List FieldError
  endpoint_errors old endpoint =
      if same_endpoint endpoint old
      then []
      else if same_endpoint old no_endpoint
      then is_control_plane_endpoint_valid endpoint
      else endpoint_immutable endpoint ∷ []

  -- `none` is an old object that is no YandexCluster.
  unfoldable pub validate_update : Option YandexCluster → YandexCluster → Verdict
  validate_update none c = bad_request
  validate_update (some old) c = verdict c.name (
      error_if (not (same_load_balancer old.spec.load_balancer c.spec.load_balancer))
        (load_balancer_immutable c.spec.load_balancer)
      ++ endpoint_errors old.spec.control_plane_endpoint c.spec.control_plane_endpoint)

abbrev pub validate_delete : YandexCluster → Verdict
validate_delete c = admitted
