-- ===== src/Metrics/Transparency.antt =====
-- Observing a request leaves its result and the world as they are.
use cluster_api_provider_yan.Prelude.{String, ℕ, ◌≡◌, refl, [], ◌∷◌, Option, none, some, arith}
use cluster_api_provider_yan.Exec.{Result, ok, err, panic, Exec}
use cluster_api_provider_yan.Exec.Errors.{Error}
use cluster_api_provider_yan.Cloud.Refinement.{Refines}
use cluster_api_provider_yan.Metrics.{
  YcMetrics, Monitored, MetricContext, in_world, observed, observe_result, observe,
  new_metric_context, controller_label_machine,
}

-- What Prometheus documents of vectors that were made with two and with three labels: they take
-- that many values without a panic.
pub record TakesLabels {M : Type 0} (om : YcMetrics M) : Type 0 where
  pub two_labels : (a b : String) (d : ℕ) (m : M) → (om.observe_duration (a ∷ b ∷ []) d m).0 ≡ ok tt
  pub three_labels : (a b c : String) (m : M) → (om.increment (a ∷ b ∷ c ∷ []) m).0 ≡ ok tt

abbrev pub context : ℕ → String → String → MetricContext
context start controller service = record { start = start; attributes = controller ∷ service ∷ [] }

module _ {W M : Type 0} (om : YcMetrics M) (now : W → ℕ) (T : TakesLabels om) where
  pub observe_quiet :
      (start : ℕ) (controller service : String) (e : Option Error) (s : Monitored W M)
      → ((observe om now (context start controller service) e s).0 ≡ ok tt)
        × ((observe om now (context start controller service) e s).1.world ≡ s.world)
  unfolding observe
  observe_quiet start controller service e s =
      grind (arith, T.two_labels controller service, T.three_labels controller service)

  module _ {A : Type 0} where
    observe_result_quiet :
        (start : ℕ) (controller service : String) (r : Result A) (s : Monitored W M)
        → ((observe_result om now (context start controller service) r s).0 ≡ r)
          × ((observe_result om now (context start controller service) r s).1.world ≡ s.world)
    unfolding observe_result
    observe_result_quiet start controller service (ok a) s =
        ground (arith, observe_quiet start controller service none s)
    observe_result_quiet start controller service (err e) s =
        ground (arith, observe_quiet start controller service (some e) s)
    observe_result_quiet start controller service panic s = (refl, refl)

    -- The request that is observed is the request.
    pub observed-Refines :
        (service : String) (request : Exec W A)
        → Refines (λ (s : Monitored W M). s.world) (observed om now service request) request
    unfolding observed new_metric_context
    observed-Refines service request = record {
      same_result = λ s. (observed_quiet s).0;
      same_world = λ s. (observed_quiet s).1;
    }
      where
        observed_quiet :
            (s : Monitored W M)
            → ((observed om now service request s).0 ≡ (request s.world).0)
              × ((observed om now service request s).1.world ≡ (request s.world).1)
        observed_quiet s =
            let (r, w) = request s.world in
            observe_result_quiet (now s.world) controller_label_machine service r
              (record s { world = w })

pub in_world-Refines :
    {W M A : Type 0} (m : Exec W A) → Refines (λ (s : Monitored W M). s.world) (in_world m) m
in_world-Refines m = record { same_result = λ s. refl; same_world = λ s. refl }
