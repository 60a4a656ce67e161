-- ===== src/Startup/Order.antt =====
-- The order in which `main` sets the program up, and how it ends.
use mathlib.Core.List.{append-nil}
use cluster_api_provider_yan.Prelude.{◌≢◌, ◌≡◌, refl, sym, List, [], ◌∷◌, ◌++◌}
use cluster_api_provider_yan.Exec.{Result, ok, err, panic, Exec}
use cluster_api_provider_yan.Exec.Errors.{
  wrapped, creating_controller, creating_mapper, watching_clusters,
}
use cluster_api_provider_yan.Startup.{
  yandex_cluster, yandex_machine, yandex_machine_template, Setup, start, build_controller,
  make_mapper, watch, complete_webhook, add_healthz_check, add_readyz_check, Runtime,
}
use cluster_api_provider_yan.Startup.Controllers.{
  cluster_controller, machine_controller, clusters_of_cluster_controller,
  clusters_of_machine_controller, setup_cluster_controller, setup_machine_controller,
  setup_webhook_with_manager,
}
use cluster_api_provider_yan.Startup.Main.{Ended, exited, returned, go_on, or_exit, setup_and_start}
use cluster_api_provider_yan.Startup.Trace.{
  Event, setup, Traced, traced, Notes, Answer, answer_of, succeeded, failed, panicked, Noted,
  Noted-then, Noted-stop, failed_apart, panicked_apart, all_done, Follows, tracing-Follows,
  bind-Follows, on_error-Follows,
}

-- How the process ends once a run through its calls came back: it returns where all succeeded, exits
-- with code 1 where one returned an error, and panics where one did.
abbrev pub ends : Answer → Result Ended
ends succeeded = ok returned
ends failed = ok (exited 1)
ends panicked = panic

-- A run through a plan that ends the process at the first call that does not succeed, and where all do
-- goes on in another way.
pub data Through (plan : List Event) (Next : Notes → Notes → Result Ended → Type 0)
    (before after : Notes) (r : Result Ended) : Type 0 where
  stopped :
      (a : Answer)
      → Noted plan before after a
      → a ≢ succeeded
      → r ≡ ends a
      → Through plan Next before after r
  went :
      (between : Notes)
      → Noted plan before between succeeded
      → Next between after r
      → Through plan Next before after r

-- Every run of a program is one through the plan.
pub record Keeps {W : Type 0} (plan : List Event) (Next : Notes → Notes → Result Ended → Type 0)
    (m : Exec (Traced W) Ended) : Type 0 where
  pub runs : (s : Traced W) → Through plan Next s.notes (m s).1.notes (m s).0

module _ {plan plan' : List Event} {Next : Notes → Notes → Result Ended → Type 0} where
  Through-after :
      {before between after : Notes} {r : Result Ended}
      → Noted plan before between succeeded
      → Through plan' Next between after r
      → Through (plan ++ plan') Next before after r
  Through-after p (stopped a q bad e) = stopped a (Noted-then p q) bad e
  Through-after p (went between q next) = went between (Noted-then p q) next

  module _ {W A : Type 0} {k : A → Exec (Traced W) Ended}
      (h : (a : A) → Keeps plan' Next (k a)) where
    go_on-Through :
        (r : Result A) (before : Notes) (s : Traced W)
        → Noted plan before s.notes (answer_of r)
        → Through (plan ++ plan') Next before (go_on r k s).1.notes (go_on r k s).0
    go_on-Through (ok a) before s p = Through-after p ((h a).runs s)
    go_on-Through (err e) before s p =
        stopped failed (Noted-stop plan' p failed_apart) failed_apart refl
    go_on-Through panic before s p =
        stopped panicked (Noted-stop plan' p panicked_apart) panicked_apart refl

    pub or_exit-Keeps :
        {m : Exec (Traced W) A} → Follows plan m → Keeps (plan ++ plan') Next (or_exit m k)
    or_exit-Keeps {m} f = record { runs = λ s. go_on-Through (m s).0 s.notes (m s).1 (f.steps s) }

-- The last call came back, and `main` returns.
abbrev pub Returned : Notes → Notes → Result Ended → Type 0
Returned before after r = (after ≡ before) × (r ≡ ok returned)

-- An empty plan, after which something follows at once.
pub at_once :
    {W : Type 0} {Next : Notes → Notes → Result Ended → Type 0} {m : Exec (Traced W) Ended}
    → ((s : Traced W) → Next s.notes (m s).1.notes (m s).0)
    → Keeps [] Next m
at_once next = record {
  runs = λ s.
      went s.notes (record { notes = []; appended = sym (append-nil s.notes); goes = all_done })
        (next s);
}

-- What `main` asks for once it has a client of the cloud.
abbrev pub setup_plan : List Event
setup_plan =
    setup (build_controller cluster_controller)
    ∷ setup (watch yandex_cluster clusters_of_cluster_controller)
    ∷ setup (build_controller machine_controller)
    ∷ setup (make_mapper yandex_machine)
    ∷ setup (watch yandex_machine clusters_of_machine_controller)
    ∷ setup (complete_webhook yandex_machine)
    ∷ setup (complete_webhook yandex_machine_template)
    ∷ setup (complete_webhook yandex_cluster)
    ∷ setup (add_healthz_check "healthz")
    ∷ setup (add_readyz_check "readyz")
    ∷ setup start
    ∷ []

module _ {W : Type 0} (runtime : Runtime W) where
  pub call-Follows : (call : Setup) → Follows (setup call ∷ []) (traced runtime call)
  call-Follows call = tracing-Follows (setup call) (runtime call)

  clusters-Follows :
      Follows
        (setup (build_controller cluster_controller)
          ∷ setup (watch yandex_cluster clusters_of_cluster_controller)
          ∷ [])
        (setup_cluster_controller (traced runtime))
  unfolding setup_cluster_controller
  clusters-Follows = bind-Follows (λ _. call-Follows _) (call-Follows _)

  machines-Follows :
      Follows
        (setup (build_controller machine_controller)
          ∷ setup (make_mapper yandex_machine)
          ∷ setup (watch yandex_machine clusters_of_machine_controller)
          ∷ [])
        (setup_machine_controller (traced runtime))
  unfolding setup_machine_controller
  machines-Follows =
      bind-Follows
        (λ _.
          bind-Follows (λ _. on_error-Follows (wrapped watching_clusters) (call-Follows _))
            (on_error-Follows (wrapped creating_mapper) (call-Follows _)))
        (on_error-Follows (wrapped creating_controller) (call-Follows _))

  pub setup_and_start-Keeps : Keeps setup_plan Returned (setup_and_start (traced runtime))
  unfolding setup_and_start setup_webhook_with_manager
  setup_and_start-Keeps =
      or_exit-Keeps
        (λ _.
          or_exit-Keeps
            (λ _.
              or_exit-Keeps
                (λ _.
                  or_exit-Keeps
                    (λ _.
                      or_exit-Keeps
                        (λ _.
                          or_exit-Keeps
                            (λ _.
                              or_exit-Keeps
                                (λ _.
                                  or_exit-Keeps (λ _. at_once (λ s. (refl, refl))) (call-Follows _))
                                (call-Follows _))
                            (call-Follows _))
                        (call-Follows _))
                    (call-Follows _))
                (call-Follows _))
            machines-Follows)
        clusters-Follows
