-- ===== src/Webhooks/Cluster/Updates.antt =====
-- Which updates of a YandexCluster are admitted.
use cluster_api_provider_yan.Prelude.{
  String, ◌≡◌, ◌≢◌, ◌↔◌, ◌⊎◌, refl, sym, ◌∙◌, ◌==◌, ◌||◌, Bool, true, false, not, List, [], ◌∷◌,
  ◌++◌, Bool-cases, inl, inr, arith, eq_iff, some,
}
use cluster_api_provider_yan.Prelude.Int.{ℤ, pos, negsuc, eqz, eqz_iff, ltz}
use cluster_api_provider_yan.Prelude.Text.{ne_test}
use cluster_api_provider_yan.Api.Cluster.{ApiEndpoint, YandexCluster}
use cluster_api_provider_yan.Webhooks.DeepEqual.{same_load_balancer, same_load_balancer_iff}
use cluster_api_provider_yan.Webhooks.Cluster.{
  FieldError, error_if, endpoint_empty, host_invalid, port_invalid, load_balancer_immutable,
  Network, admitted, endpoint_errors, is_control_plane_endpoint_valid, is_ipv4_or_fqdn, no_endpoint,
  same_endpoint, validate_update, verdict,
}

no_error :
    (test : Bool) (e : FieldError) (es : List FieldError)
    → error_if test e ++ es ≡ []
    → (test ≡ false) × (es ≡ [])
no_error true e es h = absurd (ground arith)
no_error false e es h = (refl, h)

verdict_admitted : (name : String) (es : List FieldError) → (verdict name es ≡ admitted) ↔ (es ≡ [])
verdict_admitted name [] = (λ _. refl, λ _. refl)
verdict_admitted name (e ∷ es) = (λ h. absurd (ground arith), λ h. absurd (ground arith))

not_zero : (port : ℤ) → ltz port (pos 1) ≡ false → eqz port (pos 0) ≡ false
not_zero (pos n) h = ground arith
not_zero (negsuc n) h = absurd (ground arith)

module _ (net : Network) where
  -- An endpoint with a host that is an IPv4 address or resolves, and with a port.
  pub record Reachable (endpoint : ApiEndpoint) : Type 0 where
    pub named : endpoint.host ≢ ""
    pub resolves : is_ipv4_or_fqdn net endpoint.host ≡ true
    pub port_from : ltz endpoint.port (pos 1) ≡ false
    pub port_to : ltz (pos 65535) endpoint.port ≡ false

  same_endpoint_iff : (a b : ApiEndpoint) → (same_endpoint a b ≡ true) ↔ (a ≡ b)
  same_endpoint_iff a b = ground (arith, eq_iff a.host b.host, eqz_iff a.port b.port)

  Reachable-no_errors :
      (endpoint : ApiEndpoint)
      → Reachable endpoint
      → is_control_plane_endpoint_valid net endpoint ≡ []
  unfolding is_control_plane_endpoint_valid
  Reachable-no_errors endpoint h =
      rw
        (
          ne_test _ _ h.named,
          not_zero endpoint.port h.port_from,
          h.resolves,
          h.port_from,
          h.port_to,
        )
        refl

  in_ports :
      (port : ℤ)
      → error_if (ltz port (pos 1) || ltz (pos 65535) port) (port_invalid port) ≡ []
      → (ltz port (pos 1) || ltz (pos 65535) port) ≡ false
  in_ports port h = ground (arith, h)

  reachable :
      (endpoint : ApiEndpoint)
      → (endpoint.host == "" || eqz endpoint.port (pos 0)) ≡ false
      → not (is_ipv4_or_fqdn net endpoint.host) ≡ false
      → (ltz endpoint.port (pos 1) || ltz (pos 65535) endpoint.port) ≡ false
      → Reachable endpoint
  reachable endpoint given known in_range = record {
    named = λ e. absurd (ground (arith, eq_iff endpoint.host ""));
    resolves = ground arith;
    port_from = ground arith;
    port_to = ground arith;
  }

  no_errors-Reachable :
      (endpoint : ApiEndpoint)
      → is_control_plane_endpoint_valid net endpoint ≡ []
      → Reachable endpoint
  unfolding is_control_plane_endpoint_valid
  no_errors-Reachable endpoint h =
      let host = endpoint.host in
      let port = endpoint.port in
      let ports = error_if (ltz port (pos 1) || ltz (pos 65535) port) (port_invalid port) in
      let hosts = error_if (not (is_ipv4_or_fqdn net host)) (host_invalid host) ++ ports in
      let given : ((host == "" || eqz port (pos 0)) ≡ false) × (hosts ≡ []) =
        no_error (host == "" || eqz port (pos 0)) (endpoint_empty port) hosts h in
      let known : (not (is_ipv4_or_fqdn net host) ≡ false) × (ports ≡ []) =
        no_error (not (is_ipv4_or_fqdn net host)) (host_invalid host) ports given.1 in
      let in_range : ((ltz port (pos 1) || ltz (pos 65535) port) ≡ false) = in_ports port known.1 in
      reachable endpoint given.0 known.0 in_range

  endpoint_ok :
      (before new : ApiEndpoint)
      → (endpoint_errors net before new ≡ [])
        ↔ ((new ≡ before) ⊎ ((before ≡ no_endpoint) × Reachable new))
  unfolding endpoint_errors
  endpoint_ok before new = elim (Bool-cases (same_endpoint new before)) [
    | inl same ↦ rw same (λ _. inl ((same_endpoint_iff new before).0 same), λ _. refl)
    | inr differs ↦
        let other : new ≢ before = λ e. cc (sym differs ∙ (same_endpoint_iff new before).1 e) in
        elim (Bool-cases (same_endpoint before no_endpoint)) [
          | inl unset ↦
              rw (differs, unset)
                (
                  λ h.
                      inr
                        ((same_endpoint_iff before no_endpoint).0 unset, no_errors-Reachable new h),
                  λ t. elim t [ inl e ↦ absurd (other e) | inr r ↦ Reachable-no_errors new r.1 ],
                )
          | inr was_set ↦
              rw (differs, was_set)
                (
                  λ h. absurd (ground (arith, h)),
                  λ t. elim t [
                    | inl e ↦ absurd (other e)
                    | inr r ↦
                        absurd (cc (sym was_set ∙ (same_endpoint_iff before no_endpoint).1 r.0))
                  ],
                )
        ]
  ]

  -- An update of a YandexCluster is admitted exactly if the load balancer's specification is the old
  -- one, and the endpoint is the old one, or was not set before and is reachable.
  pub validate_update_admitted_iff :
      (old c : YandexCluster)
      → (validate_update net (some old) c ≡ admitted) ↔ (
          (c.spec.load_balancer ≡ old.spec.load_balancer)
          × ((c.spec.control_plane_endpoint ≡ old.spec.control_plane_endpoint)
              ⊎ ((old.spec.control_plane_endpoint ≡ no_endpoint)
                  × Reachable c.spec.control_plane_endpoint)))
  unfolding validate_update
  validate_update_admitted_iff old c =
      let new = c.spec.control_plane_endpoint in
      let before = old.spec.control_plane_endpoint in
      let lb = same_load_balancer old.spec.load_balancer c.spec.load_balancer in
      let same = same_load_balancer_iff old.spec.load_balancer c.spec.load_balancer in
      let immutable = load_balancer_immutable c.spec.load_balancer in
      let errors = endpoint_errors net before new in
      let all = error_if (not lb) immutable ++ errors in
      (
        λ h.
            let both : (not lb ≡ false) × (errors ≡ []) =
              no_error (not lb) immutable errors ((verdict_admitted c.name all).0 h) in
            (ground (arith, both.0, same), (endpoint_ok before new).0 both.1),
        λ h.
            (verdict_admitted c.name all).1
              (rw (same.1 (sym h.0)) ((endpoint_ok before new).1 h.1)),
      )
