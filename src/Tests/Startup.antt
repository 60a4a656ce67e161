-- ===== src/Tests/Startup.antt =====
-- The start of the program where the manager cannot start.
use cluster_api_provider_yan.Prelude.{String, refl, Bool, some, List, [], ◌∷◌}
use cluster_api_provider_yan.Exec.{Result, ok, err}
use cluster_api_provider_yan.Exec.Errors.{library}
use cluster_api_provider_yan.Startup.{start, Runtime}
use cluster_api_provider_yan.Startup.Main.{Config, EnvField, Flags}
use cluster_api_provider_yan.Startup.Trace.{Traced}
use cluster_api_provider_yan.Startup.Ending.{MainRuns, main_in_order, plan_for, traced_main}
use cluster_api_provider_yan.YandexClient.Sdk.{SdkBuilder, Metadata, get_client, close}
use cluster_api_provider_yan.Tests.Fixtures.{World, full_world}
use cluster_api_provider_yan.Tests.Requests.{sdk}

abbrev runtime : Runtime World
runtime start w = (err (library 1), w)
runtime _ w = (ok tt, w)

abbrev builder : SdkBuilder World Metadata Metadata String String
builder = record {
  unmarshal_key = λ key. ok key;
  service_account_key = λ key. ok key;
  build = λ credentials w. (ok sdk, w);
}

abbrev config : Config
config = record { yandex_cloud_sa_key = "{}"; reconcile_timeout = 60000000000 }

abbrev parse_env : List EnvField → Result Config
parse_env fields = ok config

abbrev flags : Flags
flags = record { strings = ("metrics-bind-address", ":9090") ∷ []; leader_elect = some Bool.true }

abbrev before : Traced World
before = record { world = full_world; notes = [] }

main_in_order_example :
    MainRuns
      (plan_for runtime (get_client builder) close parse_env flags config)
      []
      (traced_main runtime (get_client builder) close parse_env flags before).1.notes
      (traced_main runtime (get_client builder) close parse_env flags before).0
main_in_order_example =
    main_in_order runtime (get_client builder) close parse_env flags config before refl
