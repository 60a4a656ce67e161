-- ===== src/Cloud/Messages.antt =====
-- The fields that the program reads of the cloud API's messages (package go-genproto).
use cluster_api_provider_yan.Prelude.{ℕ, String, Option, List}
use cluster_api_provider_yan.Prelude.Int.{ℤ}

-- `alb.LoadBalancer_Status`: the values that the program tests for, and the others.
pub data LoadBalancerState : Type 0 where
  active deleting stopping : LoadBalancerState
  other_state : ℕ → LoadBalancerState

-- The address of a listener's endpoint; `GetInternalIpv4Address` is nil for another kind.
pub data Address : Type 0 where
  internal_ipv4 : String → Address
  other_kind : Address

pub record Endpoint : Type 0 where
  pub addresses : List Address
  pub ports : List ℤ  -- int64

pub record Listener : Type 0 where
  pub endpoints : List Endpoint

pub record LoadBalancer : Type 0 where
  pub id : String
  pub status : LoadBalancerState
  pub listeners : List Listener

-- `address_type` is `none` where the oneof is not an IP address.
pub record Target : Type 0 where
  pub address_type : Option String
  pub subnet_id : String

pub record TargetGroup : Type 0 where
  pub id : String
  pub targets : List Target

pub record BackendGroup : Type 0 where
  pub id : String

-- The primary IPv4 address of each network interface; the getters give "" where it is not set.
-- `status` is what `GetStatus().String()` gives.
pub record Instance : Type 0 where
  pub status : String
  pub interfaces : List String
