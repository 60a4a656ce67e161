-- ===== src/Startup/Main.antt =====
-- main.go: `init` and `main`, with internal/pkg/options/options.go.
use cluster_api_provider_yan.Prelude.{
  String, ℕ, Bool, true, false, Option, none, some, List, [], ◌∷◌,
}
use cluster_api_provider_yan.Prelude.Lists.{Map, lookup}
use cluster_api_provider_yan.Exec.{Result, ok, err, panic, Exec, pure, fault, on_error, lift, ◌>>◌}
use cluster_api_provider_yan.Metrics.Registration.{register_api_metrics}
use cluster_api_provider_yan.Startup.{
  yandex_cluster, yandex_machine, yandex_machine_template, client_go, cluster_api, infrastructure,
  ManagerOptions, add_to_scheme, must_register, setup_signal_handler, get_config, start,
  new_manager, add_healthz_check, add_readyz_check, Runtime,
}
use cluster_api_provider_yan.Startup.Controllers.{
  group, version, registered_types, setup_cluster_controller, setup_machine_controller,
  setup_webhook_with_manager,
}

-- `options.Config`. A duration is in nanoseconds.
pub record Config : Type 0 where
  pub yandex_cloud_sa_key : String
  pub reconcile_timeout : ℕ

-- A field of a structure that `env.Parse` fills: its variable, whether it must not be empty, and
-- its default.
pub record EnvField : Type 0 where
  pub variable : String
  pub not_empty : Bool
  pub default : Option String

-- The tags of the fields of `Config`.
abbrev pub config_fields : List EnvField
config_fields =
    record { variable = "YC_SA_KEY"; not_empty = true; default = none }
    ∷ record { variable = "CAPY_RECONCILE_TIMEOUT"; not_empty = false; default = some "1m" }
    ∷ []

-- The flags that the command line sets, as `flag.Parse` reads them.
pub record Flags : Type 0 where
  pub strings : Map String
  pub leader_elect : Option Bool

abbrev pub string_var : Map String → String → String → String
string_var given name default = elim (lookup name given) [ none ↦ default | some value ↦ value ]

abbrev pub bool_var : Option Bool → Bool → Bool
bool_var none default = default
bool_var (some value) default = value

abbrev pub manager_options : Flags → ManagerOptions
manager_options flags = record {
  metrics_bind_address = string_var flags.strings "metrics-bind-address" ":8080";
  health_probe_bind_address = string_var flags.strings "health-probe-bind-address" ":8081";
  leader_election = bool_var flags.leader_elect false;
  leader_election_id = "yandex.cluster.x-k8s.io";
}

-- How the process ends: `os.Exit(code)`, which runs no deferred call, or the end of `main`.
pub data Ended : Type 0 where
  exited : ℕ → Ended
  returned : Ended

abbrev pub after_close : Result (Unit {0}) → Result Ended → Result Ended
after_close panic r = panic
after_close (ok _) r = r
after_close (err e) r = r

module _ {W : Type 0} where
  -- `utilruntime.Must`
  abbrev pub must : Exec W (Unit {0}) → Exec W (Unit {0})
  must m = on_error m (λ e. fault)

  abbrev pub go_on : {A : Type 0} → Result A → (A → Exec W Ended) → Exec W Ended
  go_on (ok a) next = next a
  go_on (err e) next = pure (exited 1)
  go_on panic next = fault

  -- `if err := …; err != nil { setupLog.Error(…); os.Exit(1) }`
  abbrev pub or_exit : {A : Type 0} → Exec W A → (A → Exec W Ended) → Exec W Ended
  or_exit m next w = let (r, w') = m w in go_on r next w'

  abbrev pub go_on_or_panic : Result (Unit {0}) → Exec W Ended → Exec W Ended
  go_on_or_panic (ok _) next = next
  go_on_or_panic (err e) next = fault
  go_on_or_panic panic next = fault

  -- A call that panics where it fails.
  abbrev pub or_panic : Exec W (Unit {0}) → Exec W Ended → Exec W Ended
  or_panic m next w = let (r, w') = m w in go_on_or_panic r next w'

  abbrev pub closing : Exec W (Unit {0}) → Result Ended → Exec W Ended
  closing close (ok (exited code)) w = (ok (exited code), w)
  closing close r w = let (r', w') = close w in (after_close r' r, w')

  -- `defer func() { yandexClient.Close(ctx) }()` before the rest of `main`. The error is dropped.
  abbrev pub with_close : Exec W (Unit {0}) → Exec W Ended → Exec W Ended
  with_close close body w = let (r, w') = body w in closing close r w'

module _ {W : Type 0} (runtime : Runtime W) where
  -- `metrics.RegisterAPIMetrics()` the first time that it is called.
  register_first : Exec W (Unit {0})
  register_first w =
      let (r, s) =
        register_api_metrics (λ options. runtime (must_register options))
          (record { world = w; done = false }) in
      (r, s.world)

  unfoldable pub init : Exec W (Unit {0})
  unfolding register_first
  init = do
    must (runtime (add_to_scheme client_go))
    must (runtime (add_to_scheme cluster_api))
    must (runtime (add_to_scheme (infrastructure group version registered_types)))
    register_first

  -- `main` once it has a client of the cloud.
  unfoldable pub setup_and_start : Exec W Ended
  setup_and_start = or_exit (setup_cluster_controller runtime) (λ _.
      or_exit (setup_machine_controller runtime) (λ _.
        or_exit (setup_webhook_with_manager runtime yandex_machine) (λ _.
          or_exit (setup_webhook_with_manager runtime yandex_machine_template) (λ _.
            or_exit (setup_webhook_with_manager runtime yandex_cluster) (λ _.
              or_exit (runtime (add_healthz_check "healthz")) (λ _.
                or_exit (runtime (add_readyz_check "readyz"))
                  (λ _. or_exit (runtime start) (λ _. pure returned))))))))

  -- `get_client` and `close` are those of the package client.
  module _ {C : Type 0} (get_client : String → Exec W C) (close : C → Exec W (Unit {0}))
      (parse_env : List EnvField → Result Config) (flags : Flags) where
    unfoldable pub main : Exec W Ended
    main = or_panic (runtime setup_signal_handler) (
        or_exit (lift (parse_env config_fields)) (λ cfg. or_exit (runtime get_config) (λ _.
          or_exit (runtime (new_manager (manager_options flags))) (λ _.
            or_exit (get_client cfg.yandex_cloud_sa_key)
              (λ client. with_close (close client) setup_and_start)))))
