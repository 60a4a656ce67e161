-- ===== src/Api/Conditions.antt =====
-- `Status.Conditions` of both resources (api/v1alpha1/types.go). The library that maintains the
-- list is not part of the repository: the model keeps the calls that the program makes of it, the
-- latest first. The text of a message is kept as the error that it is formatted from.
use cluster_api_provider_yan.Prelude.{String, Option, List}
use cluster_api_provider_yan.Exec.Errors.{Error}

pub data Severity : Type 0 where
  severity_error severity_warning severity_info : Severity

pub data Mark : Type 0 where
  -- `conditions.MarkTrue`: the type
  mark_true : String → Mark
  -- `conditions.MarkFalse`: type, reason, severity, message
  mark_false : String → String → Severity → Option Error → Mark
  -- `conditions.MarkUnknown`: type, reason, message
  mark_unknown : String → String → Option Error → Mark

abbrev pub Conditions : Type 0
Conditions = List Mark

abbrev pub condition_provisioning : String
condition_provisioning = "PROVISIONING"

abbrev pub condition_running : String
condition_running = "RUNNING"

abbrev pub condition_ready : String
condition_ready = "READY"

abbrev pub condition_error : String
condition_error = "ERROR"

abbrev pub condition_notfound : String
condition_notfound = "NOTFOUND"

abbrev pub load_balancer_ready_condition : String
load_balancer_ready_condition = "LoadBalancerReady"
