-- ===== src/Metrics/Registration.antt =====
-- The vectors of internal/pkg/metrics/metrics.go: how they are made and registered, and that
-- `observe` hands each of them a value for each of its labels.
use cluster_api_provider_yan.Prelude.{String, ℕ, ◌≡◌, refl, Bool, true, false, List, [], ◌∷◌}
use cluster_api_provider_yan.Prelude.Lists.{length}
use cluster_api_provider_yan.Exec.{ok, Exec, ◌>>◌}
use cluster_api_provider_yan.Metrics.{YcMetrics}
use cluster_api_provider_yan.Metrics.Transparency.{TakesLabels}

-- `prometheus.HistogramOpts` or `prometheus.CounterOpts`, with the names of the labels. A counter
-- has no buckets; the bounds of buckets are in hundredths.
pub record VectorOptions : Type 0 where
  pub subsystem : String
  pub name : String
  pub help : String
  pub buckets : List ℕ
  pub labels : List String

abbrev pub duration_buckets : List ℕ
duration_buckets = 0 ∷ 10 ∷ 25 ∷ 50 ∷ 75 ∷ 100 ∷ 500 ∷ []

abbrev pub metric_controller_label : String
metric_controller_label = "controller"

abbrev pub metric_service_label : String
metric_service_label = "object"

abbrev pub metric_status_label : String
metric_status_label = "status"

abbrev pub metric_yc_subsystem : String
metric_yc_subsystem = "yc"

abbrev pub api_duration : VectorOptions
api_duration = record {
  subsystem = metric_yc_subsystem;
  name = "api_request_duration_seconds";
  help = "Latency of HTTP requests to YandexCloud API";
  buckets = duration_buckets;
  labels = metric_controller_label ∷ metric_service_label ∷ [];
}

abbrev pub api_requests : VectorOptions
api_requests = record {
  subsystem = metric_yc_subsystem;
  name = "api_requests";
  help = "Number of YandexCloud API requests";
  buckets = [];
  labels = metric_controller_label ∷ metric_service_label ∷ metric_status_label ∷ [];
}

-- `sync.Once`, beside the world.
pub record Once (W : Type 0) : Type 0 where
  pub world : W
  pub done : Bool

-- `once.Do(f)`: `f` is called by the first call alone, which counts as made even where `f` panics.
abbrev pub do_once : {W : Type 0} → Exec W (Unit {0}) → Exec (Once W) (Unit {0})
do_once f s =
    let (r, w) = f s.world in
    elim s.done [ true ↦ (ok tt, s) | false ↦ (r, record { world = w; done = true }) ]

-- `metrics.Registry.MustRegister` panics where a vector is refused.
unfoldable pub register_api_metrics :
    {W : Type 0} → (VectorOptions → Exec W (Unit {0})) → Exec (Once W) (Unit {0})
register_api_metrics must_register =
    do_once (must_register api_duration >> must_register api_requests)

-- What Prometheus documents of the vectors that it makes: they take as many values as they have
-- labels without a panic.
pub record Vectors (M : Type 0) : Type 0 where
  pub observe_with : VectorOptions → List String → ℕ → Exec M (Unit {0})
  pub increment_with : VectorOptions → List String → Exec M (Unit {0})

pub record TakesAsMany {M : Type 0} (v : Vectors M) : Type 0 where
  pub observed_with :
      (o : VectorOptions) (ls : List String) (d : ℕ) (m : M)
      → length ls ≡ length o.labels
      → (v.observe_with o ls d m).0 ≡ ok tt
  pub incremented_with :
      (o : VectorOptions) (ls : List String) (m : M)
      → length ls ≡ length o.labels
      → (v.increment_with o ls m).0 ≡ ok tt

module _ {M : Type 0} (v : Vectors M) where
  -- `apiRequestMetrics`
  unfoldable pub api_request_metrics : YcMetrics M
  api_request_metrics = record {
    observe_duration = v.observe_with api_duration;
    increment = v.increment_with api_requests;
  }

  pub api_request_metrics-TakesLabels : TakesAsMany v → TakesLabels api_request_metrics
  unfolding api_request_metrics
  api_request_metrics-TakesLabels h = record {
    two_labels = λ a b d m. h.observed_with api_duration (a ∷ b ∷ []) d m refl;
    three_labels = λ a b c m. h.incremented_with api_requests (a ∷ b ∷ c ∷ []) m refl;
  }
