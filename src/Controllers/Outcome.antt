-- ===== src/Controllers/Outcome.antt =====
-- `ctrl.Result`, and the pause before a reconciliation is repeated
-- (controllers/yandexmachine_controller.go).
use cluster_api_provider_yan.Prelude.{ℕ, Bool, true, false}

-- `requeue_after` is in nanoseconds, and 0 if it is not set.
pub record Outcome : Type 0 where
  pub requeue : Bool
  pub requeue_after : ℕ

abbrev pub requeue_duration : ℕ
requeue_duration = 10000000000

-- `ctrl.Result{}`
abbrev pub done : Outcome
done = record { requeue = false; requeue_after = 0 }

-- `ctrl.Result{RequeueAfter: RequeueDuration}`
abbrev pub again_later : Outcome
again_later = record { requeue = false; requeue_after = requeue_duration }

-- `ctrl.Result{Requeue: true}`
abbrev pub again : Outcome
again = record { requeue = true; requeue_after = 0 }
