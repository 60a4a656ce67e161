-- ===== src/Startup/Ending.antt =====
-- What `main` asks for, in which order, and how it ends.
use mathlib.Core.List.{append-nil}
use cluster_api_provider_yan.Prelude.{String, ◌≡◌, ◌≢◌, refl, sym, List, [], ◌∷◌, ◌++◌}
use cluster_api_provider_yan.Exec.{Result, ok, err, panic, Exec, lift}
use cluster_api_provider_yan.Startup.{setup_signal_handler, get_config, new_manager, Runtime}
use cluster_api_provider_yan.Startup.Main.{
  Config, EnvField, Flags, config_fields, manager_options, Ended, exited, returned, after_close,
  closing, with_close, main, or_exit, go_on_or_panic,
}
use cluster_api_provider_yan.Startup.Trace.{
  Event, setup, made_client, closed_client, Traced, tracing, traced, Notes, Answer, answer_of,
  succeeded, failed, panicked, Noted, failed_apart, panicked_apart, tracing-Follows,
}
use cluster_api_provider_yan.Startup.Order.{
  ends, Through, stopped, went, Keeps, or_exit-Keeps, Returned, at_once, call-Follows, setup_plan,
  setup_and_start-Keeps,
}

-- What the deferred `Close` adds to a run that came back, and how the process then ends: it is not
-- called on an exit, and its own error is dropped.
pub data Closes : Answer → Notes → Result Ended → Type 0 where
  left_open : Closes failed [] (ok (exited 1))
  closed : (a : Answer) → a ≢ panicked → Closes succeeded ((closed_client, a) ∷ []) (ok returned)
  close_panicked : Closes succeeded ((closed_client, panicked) ∷ []) panic
  closed_after_panic : (a : Answer) → Closes panicked ((closed_client, a) ∷ []) panic

-- With a client of the cloud: a run through the set-up, and then the deferred `Close`.
pub record Closed (before after : Notes) (r : Result Ended) : Type 0 where
  pub answer : Answer
  pub between : Notes
  pub noted : Noted setup_plan before between answer
  pub last : Notes
  pub closes : Closes answer last r
  pub appended : after ≡ between ++ last

module _ {W : Type 0} (close : Exec W (Unit {0})) where
  abbrev run_close : Result Ended → Traced W → Result Ended × Traced W
  run_close r s = closing (tracing closed_client close) r s

  Closes-returned :
      (r : Result (Unit {0}))
      → Closes succeeded ((closed_client, answer_of r) ∷ []) (after_close r (ok returned))
  Closes-returned (ok _) = closed succeeded (λ h. absurd (cc))
  Closes-returned (err e) = closed failed (λ h. absurd (cc))
  Closes-returned panic = close_panicked

  Closes-panicked :
      (r : Result (Unit {0}))
      → Closes panicked ((closed_client, answer_of r) ∷ []) (after_close r panic)
  Closes-panicked (ok _) = closed_after_panic succeeded
  Closes-panicked (err e) = closed_after_panic failed
  Closes-panicked panic = closed_after_panic panicked

  close_ended :
      (a : Answer) (before : Notes) (s : Traced W)
      → Noted setup_plan before s.notes a
      → Closed before (run_close (ends a) s).1.notes (run_close (ends a) s).0
  close_ended succeeded before s p = record {
    answer = succeeded;
    between = s.notes;
    noted = p;
    last = (closed_client, answer_of (close s.world).0) ∷ [];
    closes = Closes-returned (close s.world).0;
    appended = refl;
  }
  close_ended failed before s p = record {
    answer = failed;
    between = s.notes;
    noted = p;
    last = [];
    closes = left_open;
    appended = sym (append-nil s.notes);
  }
  close_ended panicked before s p = record {
    answer = panicked;
    between = s.notes;
    noted = p;
    last = (closed_client, answer_of (close s.world).0) ∷ [];
    closes = Closes-panicked (close s.world).0;
    appended = refl;
  }

  close_run :
      (r : Result Ended) (before : Notes) (s : Traced W)
      → Through setup_plan Returned before s.notes r
      → Closed before (run_close r s).1.notes (run_close r s).0
  close_run r before s (stopped a p bad e) = rw e (close_ended a before s p)
  close_run r before s (went between p (same, e)) =
      rw e (close_ended succeeded before s (rw same p))

  with_close-Keeps :
      {body : Exec (Traced W) Ended}
      → Keeps setup_plan Returned body
      → Keeps [] Closed (with_close (tracing closed_client close) body)
  with_close-Keeps {body} k = at_once (λ s. close_run (body s).0 s.notes (body s).1 (k.runs s))

-- A run of `main`: where the signal handler cannot be set up it panics, otherwise it goes on.
pub data MainRuns (plan : List Event) (before after : Notes) (r : Result Ended) : Type 0 where
  unhandled :
      (a : Answer)
      → Noted (setup setup_signal_handler ∷ []) before after a
      → a ≢ succeeded
      → r ≡ panic
      → MainRuns plan before after r
  handled :
      (between : Notes)
      → Noted (setup setup_signal_handler ∷ []) before between succeeded
      → Through plan Closed between after r
      → MainRuns plan before after r

module _ {W : Type 0} {plan : List Event} {next : Exec (Traced W) Ended}
    (k : Keeps plan Closed next) where
  go_on_or_panic-MainRuns :
      (r : Result (Unit {0})) (before : Notes) (s : Traced W)
      → Noted (setup setup_signal_handler ∷ []) before s.notes (answer_of r)
      → MainRuns plan before (go_on_or_panic r next s).1.notes (go_on_or_panic r next s).0
  go_on_or_panic-MainRuns (ok _) before s p = handled s.notes p (k.runs s)
  go_on_or_panic-MainRuns (err e) before s p = unhandled failed p failed_apart refl
  go_on_or_panic-MainRuns panic before s p = unhandled panicked p panicked_apart refl

lift-Keeps :
    {W A : Type 0} {plan : List Event} {Next : Notes → Notes → Result Ended → Type 0}
    (k : A → Exec (Traced W) Ended) (r : Result A) (a : A)
    → r ≡ ok a
    → Keeps plan Next (k a)
    → Keeps plan Next (or_exit (lift r) k)
lift-Keeps k r a e h = rw e h

module _ {W C : Type 0} (runtime : Runtime W) (get_client : String → Exec W C)
    (close : C → Exec W (Unit {0})) (parse_env : List EnvField → Result Config)
    (flags : Flags) where
  -- Up to the client of the cloud.
  abbrev pub plan_for : Config → List Event
  plan_for cfg =
      setup get_config
      ∷ setup (new_manager (manager_options flags))
      ∷ made_client cfg.yandex_cloud_sa_key
      ∷ []

  -- `main` with everything that it calls noted.
  abbrev pub traced_main : Exec (Traced W) Ended
  traced_main =
      main (traced runtime) (λ key. tracing (made_client key) (get_client key))
        (λ client. tracing closed_client (close client)) parse_env flags

  -- Where the environment gives a configuration, `main` makes the calls of the set-up in this order,
  -- each exactly once: the signal handler, the configuration of the cluster, the manager, the client
  -- of the cloud with the key of the environment, the controllers and watches of clusters and of
  -- machines, the webhooks of machines, templates and clusters, the two checks, and the start of the
  -- manager. It goes on from a call only where the call succeeded, so the first that fails is the
  -- last of them. Where that call returned an error the process exits with code 1, and the client of
  -- the cloud, if it was made, stays unclosed; where it panicked, or was the signal handler, `main`
  -- panics. Where all succeed `main` returns. Once there is a client, it is closed at the end of a
  -- `main` that returns or panics; an error of that is dropped, and a panic of it is one of `main`.
  pub main_in_order :
      (cfg : Config) (s : Traced W)
      → parse_env config_fields ≡ ok cfg
      → MainRuns (plan_for cfg) s.notes (traced_main s).1.notes (traced_main s).0
  unfolding main
  main_in_order cfg s h =
      let handler = call-Follows runtime setup_signal_handler in
      let (r, s') = traced runtime setup_signal_handler s in
      go_on_or_panic-MainRuns
        (lift-Keeps _ (parse_env config_fields) cfg h (
          or_exit-Keeps
            (λ _.
              or_exit-Keeps
                (λ _.
                  or_exit-Keeps
                    (λ client. with_close-Keeps (close client) (setup_and_start-Keeps runtime))
                    (tracing-Follows (made_client cfg.yandex_cloud_sa_key)
                      (get_client cfg.yandex_cloud_sa_key)))
                (call-Follows runtime _))
            (call-Follows runtime _)))
        r s.notes s' (handler.steps s)
