-- ===== src/Startup.antt =====
-- main.go, and what it sets up: the controllers of controllers/ and the webhooks of api/v1alpha1, over
-- the controller library (package controller-runtime), which is not modelled.
pub mod Controllers
pub mod Main
pub mod Trace
pub mod Order
pub mod Ending
use cluster_api_provider_yan.Prelude.{String, ℕ, Bool, List}
use cluster_api_provider_yan.Exec.{Exec}
use cluster_api_provider_yan.Metrics.Registration.{VectorOptions}

-- The types of the objects that are watched or validated, of this program and of Cluster API.
pub data Kind : Type 0 where
  yandex_cluster yandex_machine yandex_machine_template : Kind
  capi_cluster capi_machine : Kind

-- The packages of types that are added to the scheme: of the last one, the group, the version and the
-- types that its `init` functions give to `SchemeBuilder.Register`.
pub data Types : Type 0 where
  client_go cluster_api : Types
  infrastructure : String → String → List String → Types

-- The functions that make requests of the objects of a watch, and the predicates on them.
pub data Mapper : Type 0 where
  machine_to_infrastructure : String → String → String → Mapper
  yandex_cluster_to_yandex_machines : Mapper
  cluster_to_infrastructure : String → String → String → Mapper
  cluster_to_typed_objects : Kind → Mapper

pub data Predicate : Type 0 where
  resource_not_paused cluster_unpaused cluster_unpaused_and_infrastructure_ready : Predicate

pub record Watch : Type 0 where
  pub kind : Kind
  pub mapper : Mapper
  pub predicates : List Predicate

-- What `ctrl.NewControllerManagedBy(mgr)…Build(r)` is given.
pub record ControllerOptions : Type 0 where
  pub for_kind : Kind
  pub event_filter : Predicate
  pub watches : List Watch

-- The options of `ctrl.NewManager` that are set.
pub record ManagerOptions : Type 0 where
  pub metrics_bind_address : String
  pub health_probe_bind_address : String
  pub leader_election : Bool
  pub leader_election_id : String

-- The calls of the controller library, with what they are given. There is one manager, and one
-- controller for each kind, which the calls after the one that makes it are about.
pub data Setup : Type 0 where
  add_to_scheme : Types → Setup
  must_register : VectorOptions → Setup
  setup_signal_handler get_config start : Setup
  new_manager : ManagerOptions → Setup
  build_controller : ControllerOptions → Setup
  -- `util.ClusterToTypedObjectsMapper` for a kind, and `c.Watch` of the controller for a kind
  make_mapper : Kind → Setup
  watch : Kind → Watch → Setup
  -- `ctrl.NewWebhookManagedBy(mgr).For(t).Complete()`
  complete_webhook : Kind → Setup
  add_healthz_check add_readyz_check : String → Setup

abbrev pub Runtime : Type 0 → Type 0
Runtime W = Setup → Exec W (Unit {0})
