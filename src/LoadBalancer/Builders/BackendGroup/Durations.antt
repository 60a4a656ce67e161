-- ===== src/LoadBalancer/Builders/BackendGroup/Durations.antt =====
-- The durations of the health checks of a backend group.
use cluster_api_provider_yan.Prelude.{ℕ, ◌*◌, ◌≤◌, ◌≡◌, refl, [], ◌∷◌, arith}
use cluster_api_provider_yan.Prelude.Int.{pos, to_int64_small}
use cluster_api_provider_yan.LoadBalancer.Builders.BackendGroup.{
  AlbBackendGroupBuilder, create_health_checks, seconds,
}

seconds_exact : (n : ℕ) → n ≤ 9223372036 → seconds (pos n) ≡ pos (1000000000 * n)
unfolding seconds
seconds_exact n h = to_int64_small (1000000000 * n) (omega arith)

-- Where the timeout and the interval of the specification are numbers of seconds from 0 to
-- 9223372036, the only health check of the backend group has exactly these durations in
-- nanoseconds, and the threshold of the specification both ways.
pub create_health_checks_exact :
    (a : AlbBackendGroupBuilder) (timeout interval : ℕ)
    → a.lbs.healthcheck.timeout_sec ≡ pos timeout
    → a.lbs.healthcheck.interval_sec ≡ pos interval
    → timeout ≤ 9223372036
    → interval ≤ 9223372036
    → create_health_checks a
      ≡ record {
        timeout = pos (1000000000 * timeout);
        interval = pos (1000000000 * interval);
        unhealthy_threshold = a.lbs.healthcheck.threshold;
        healthy_threshold = a.lbs.healthcheck.threshold;
      }
        ∷ []
unfolding create_health_checks
create_health_checks_exact a timeout interval ht hi lt li =
    rw (ht, hi, seconds_exact timeout lt, seconds_exact interval li) refl
