-- ===== src/Exec/Errors.antt =====
-- Go's `error` values: one constructor for each error that the program makes, with the values that
-- its message is formatted from, and the errors that come from outside.
use cluster_api_provider_yan.Prelude.{String, ℕ}
use cluster_api_provider_yan.Prelude.Int.{ℤ}

-- The contexts that `fmt.Errorf("…: %w", err)` and `errors.Wrap` put before an error.
pub data Context : Type 0 where
  -- controllers
  creating_controller creating_mapper watching_clusters : Context
  reconciling_load_balancer deleting_load_balancer : Context
  fetching_machine adding_finalizer reconciling_instance deleting_instance : Context
  -- compute service
  finding_instance getting_for_delete : String → Context
  registering deregistering : Context
  -- scope
  patch_helper : Context
  bootstrap_secret : String → String → Context

pub data Error : Type 0 where
  -- an error value of a library or of a remote service
  library : ℕ → Error
  wrapped : Context → Error → Error
  -- load balancer service
  nlb_unsupported : Error
  unknown_lb_type : String → Error
  incorrect_address : String → String → String → Error
  incorrect_port : String → ℤ → ℤ → Error
  load_balancer_missing : String → Error
  target_group_missing : String → Error
  -- compute service
  one_interface_only ipv4_only : Error
  no_addresses : String → Error
  -- scope
  secret_value_missing memory_unparsed disk_size_unparsed : Error
  nil_parameter : String → Error
  -- client of the cloud
  no_target_group_metadata no_backend_group_metadata no_load_balancer_metadata : Error
  -- cluster controller
  endpoint_differs : Error
