-- ===== src/Metrics/Counts.antt =====
-- What one observed request does to the counters.
use cluster_api_provider_yan.Prelude.{
  String, ℕ, suc, ◌≡◌, ◌≢◌, refl, ◌∙◌, List, [], ◌∷◌, Option, none, some, arith,
}
use mathlib.Core.Option.{some-injective}
use cluster_api_provider_yan.Exec.{Result, ok, err, panic, Exec, continue, ◌>>=◌, lift}
use cluster_api_provider_yan.Exec.Errors.{Error}
use cluster_api_provider_yan.Metrics.{
  YcMetrics, Monitored, in_world, observed, observe_result, observe, status_of, status_failed,
  status_success, new_metric_context, controller_label_machine,
}
use cluster_api_provider_yan.Metrics.Transparency.{TakesLabels, context}

-- What Prometheus documents of counters: they stand apart from the durations; an increment adds one
-- to the counter of its labels and leaves the counters of all other labels.
pub record Counts {M : Type 0} (om : YcMetrics M) (count : List String → M → ℕ) : Type 0 where
  pub takes : TakesLabels om
  pub durations_apart :
      (ls labels : List String) (d : ℕ) (m : M)
      → count ls (om.observe_duration labels d m).1 ≡ count ls m
  pub counted :
      (a b c : String) (m : M)
      → count (a ∷ b ∷ c ∷ []) (om.increment (a ∷ b ∷ c ∷ []) m).1 ≡ suc (count (a ∷ b ∷ c ∷ []) m)
  pub others :
      (ls : List String) (a b c : String) (m : M)
      → ls ≢ a ∷ b ∷ c ∷ []
      → count ls (om.increment (a ∷ b ∷ c ∷ []) m).1 ≡ count ls m

-- The status of a request that came back, with an answer or with an error.
abbrev pub outcome : {A : Type 0} → Result A → Option String
outcome (ok a) = some status_success
outcome (err e) = some status_failed
outcome panic = none

-- The counter of these labels has gone up by one, and no other has changed.
abbrev pub CountsOne : {M : Type 0} → (List String → M → ℕ) → List String → M → M → Type 0
CountsOne count labels before after =
    (count labels after ≡ suc (count labels before))
    × ((ls : List String) → ls ≢ labels → count ls after ≡ count ls before)

pub record KeepsMetrics {W M A : Type 0} (step : Exec (Monitored W M) A) : Type 0 where
  pub kept : (s : Monitored W M) → (step s).1.metrics ≡ s.metrics

-- A step counts a request to a service: once, with its status, where the request comes back.
pub record CountsRequest {W M A B : Type 0} (count : List String → M → ℕ) (service : String)
    (request : Exec W A) (step : Exec (Monitored W M) B) : Type 0 where
  pub once :
      (s : Monitored W M) (status : String)
      → outcome (request s.world).0 ≡ some status
      → CountsOne count
          (controller_label_machine ∷ service ∷ status ∷ [])
          s.metrics
          (step s).1.metrics

pub in_world-KeepsMetrics : {W M A : Type 0} (m : Exec W A) → KeepsMetrics {M = M} (in_world m)
in_world-KeepsMetrics m = record { kept = λ s. refl }

pub lift-KeepsMetrics : {W M A : Type 0} (r : Result A) → KeepsMetrics {W = W} {M = M} (lift r)
lift-KeepsMetrics r = record { kept = λ s. refl }

module _ {W M A B : Type 0} (k : A → Exec (Monitored W M) B)
    (h : (a : A) → KeepsMetrics (k a)) where
  continue-KeepsMetrics : (r : Result A) → KeepsMetrics (continue r k)
  continue-KeepsMetrics (ok a) = h a
  continue-KeepsMetrics (err e) = record { kept = λ s. refl }
  continue-KeepsMetrics panic = record { kept = λ s. refl }

  pub bind-KeepsMetrics : {m : Exec (Monitored W M) A} → KeepsMetrics m → KeepsMetrics (m >>= k)
  bind-KeepsMetrics {m} first = record {
    kept = λ s. (continue-KeepsMetrics (m s).0).kept (m s).1 ∙ first.kept s;
  }

  -- What is read of an answer is not counted.
  pub bind-CountsRequest :
      {X : Type 0} {count : List String → M → ℕ} {service : String} {request : Exec W X}
      {m : Exec (Monitored W M) A}
      → CountsRequest count service request m
      → CountsRequest count service request (m >>= k)
  bind-CountsRequest {m = m} first = record {
    once = λ s status e. rw ((continue-KeepsMetrics (m s).0).kept (m s).1) (first.once s status e);
  }

module _ {W M : Type 0} {om : YcMetrics M} {count : List String → M → ℕ} (C : Counts om count)
    (now : W → ℕ) where
  observe_counts :
      (start : ℕ) (service : String) (e : Option Error) (s : Monitored W M)
      → CountsOne count
          (controller_label_machine ∷ service ∷ status_of e ∷ [])
          s.metrics
          (observe om now (context start controller_label_machine service) e s).1.metrics
  unfolding observe
  observe_counts start service e s = (
    grind
        (arith, C.takes.two_labels controller_label_machine service, C.durations_apart, C.counted),
    λ ls other. grind (
      arith,
      C.takes.two_labels controller_label_machine service,
      C.durations_apart,
      C.others ls controller_label_machine service (status_of e) _ other,
    ),
  )

  observe_result_counts :
      {A : Type 0} (start : ℕ) (service status : String) (r : Result A) (s : Monitored W M)
      → outcome r ≡ some status
      → CountsOne count
          (controller_label_machine ∷ service ∷ status ∷ [])
          s.metrics
          (observe_result om now (context start controller_label_machine service) r s).1.metrics
  unfolding observe_result
  observe_result_counts start service status (ok a) s h =
      let r = observe om now (context start controller_label_machine service) none s in
      let same =
        (continue-KeepsMetrics (λ _. lift (ok a)) (λ _. lift-KeepsMetrics (ok a)) r.0).kept r.1 in
      rw (← some-injective _ _ h, same) (observe_counts start service none s)
  observe_result_counts {A} start service status (err e) s h =
      let r = observe om now (context start controller_label_machine service) (some e) s in
      let same =
        (continue-KeepsMetrics (λ _. lift {A = A} (err e)) (λ _. lift-KeepsMetrics (err e))
            r.0).kept
          r.1 in
      rw (← some-injective _ _ h, same) (observe_counts start service (some e) s)
  observe_result_counts start service status panic s h = absurd (ground arith)

  pub observed-CountsRequest :
      {A : Type 0} (service : String) (request : Exec W A)
      → CountsRequest count service request (observed om now service request)
  unfolding observed new_metric_context
  observed-CountsRequest service request = record {
    once = λ s status e.
        let (r, w) = request s.world in
        observe_result_counts (now s.world) service status r (record s { world = w }) e;
  }
