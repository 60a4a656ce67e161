-- ===== src/Metrics.antt =====
-- internal/pkg/metrics/metrics.go: the metrics of the requests to the cloud API. The metric vectors of
-- the Prometheus library are operations on an unknown type.
pub mod Transparency
pub mod Counts
pub mod Registration
use cluster_api_provider_yan.Prelude.{String, ℕ, ◌-◌, Option, none, some, List, [], ◌∷◌, ◌++◌}
use cluster_api_provider_yan.Exec.{
  Result, ok, err, panic, Exec, pure, raise, fault, gets, inspect, ◌>>=◌, ◌>>◌,
}
use cluster_api_provider_yan.Exec.Errors.{Error}

abbrev pub status_failed : String
status_failed = "failed"

abbrev pub status_success : String
status_success = "success"

abbrev pub service_label_compute : String
service_label_compute = "compute"

abbrev pub service_label_alb_target_group : String
service_label_alb_target_group = "alb-target-group"

abbrev pub service_label_alb_backend_group : String
service_label_alb_backend_group = "alb-backend-group"

abbrev pub service_label_alb : String
service_label_alb = "alb"

abbrev pub service_label_nlb_target_group : String
service_label_nlb_target_group = "nlb-target-group"

abbrev pub controller_label_machine : String
controller_label_machine = "yandexmachine"

-- `YcMetrics`: `APIDuration.WithLabelValues(…).Observe(…)` and `APIRequests.WithLabelValues(…).Inc()`,
-- which panic where the number of labels is not the one that the vector was made with. A duration
-- is in the units of the clock.
pub record YcMetrics (M : Type 0) : Type 0 where
  pub observe_duration : List String → ℕ → Exec M (Unit {0})
  pub increment : List String → Exec M (Unit {0})

-- The world, which has a clock, and the metrics.
pub record Monitored (W M : Type 0) : Type 0 where
  pub world : W
  pub metrics : M

abbrev pub world_of : {W M : Type 0} → Monitored W M → W
world_of s = s.world

pub record MetricContext : Type 0 where
  pub start : ℕ
  pub attributes : List String

-- The value of the label "status"; no error is `nil`.
abbrev pub status_of : Option Error → String
status_of none = status_success
status_of (some e) = status_failed

module _ {W M A : Type 0} where
  abbrev pub in_world : Exec W A → Exec (Monitored W M) A
  in_world m s = let (r, w) = m s.world in (r, record s { world = w })

  abbrev pub in_metrics : Exec M A → Exec (Monitored W M) A
  in_metrics m s = let (r, after) = m s.metrics in (r, record s { metrics = after })

module _ {W M : Type 0} (om : YcMetrics M) (now : W → ℕ) where
  unfoldable pub new_metric_context : String → String → Exec (Monitored W M) MetricContext
  new_metric_context controller service = gets (λ (s : Monitored W M). record {
    start = now s.world;
    attributes = controller ∷ service ∷ [];
  })

  -- `ObserveRequest`, which hands the metrics of the package to `observe`.
  unfoldable pub observe : MetricContext → Option Error → Exec (Monitored W M) (Unit {0})
  observe mc e = do
    since ← gets (λ (s : Monitored W M). now s.world - mc.start)
    in_metrics (om.observe_duration mc.attributes since)
    in_metrics (om.increment (mc.attributes ++ status_of e ∷ []))

  module _ {A : Type 0} where
    observe_result : MetricContext → Result A → Exec (Monitored W M) A
    unfolding observe
    observe_result mc (ok a) = observe mc none >> pure a
    observe_result mc (err e) = observe mc (some e) >> raise e
    observe_result mc panic = fault

    -- The first lines of every operation of the client: a metric context, the request, and
    -- `mc.ObserveRequest(err)`. A request that panics is not observed.
    unfoldable pub observed : String → Exec W A → Exec (Monitored W M) A
    unfolding new_metric_context observe_result
    observed service request = do
      mc ← new_metric_context controller_label_machine service
      inspect (in_world request) (observe_result mc)
