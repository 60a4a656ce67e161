-- ===== src/Webhooks/Verdicts.antt =====
-- api/v1alpha1: what a webhook answers, for all of them.
use cluster_api_provider_yan.Prelude.{String, Bool, List, [], ◌∷◌, if◌then◌else◌}
use cluster_api_provider_yan.Prelude.Int.{ℤ}
use cluster_api_provider_yan.Exec.Errors.{Error}
use cluster_api_provider_yan.Api.Cluster.{ApiEndpoint, LoadBalancerSpec}

-- The elements of `field.ErrorList`, with the values that they show.
pub data FieldError : Type 0 where
  type_unsupported : String → FieldError
  address_not_ipv4 : String → FieldError
  endpoint_empty : ℤ → FieldError
  host_invalid : String → FieldError
  port_invalid : ℤ → FieldError
  load_balancer_immutable : LoadBalancerSpec → FieldError
  endpoint_immutable : ApiEndpoint → FieldError
  new_unconverted old_unconverted : Error → FieldError
  spec_immutable : FieldError
  provider_id_set : FieldError
  name_invalid : String → FieldError

pub data Verdict : Type 0 where
  admitted : Verdict
  bad_request : Verdict
  invalid : String → List FieldError → Verdict

-- An error that is appended where the test holds.
abbrev pub error_if : Bool → FieldError → List FieldError
error_if test e = if test then e ∷ [] else []

-- No error, or one that holds them all.
abbrev pub verdict : String → List FieldError → Verdict
verdict name [] = admitted
verdict name (e ∷ es) = invalid name (e ∷ es)
