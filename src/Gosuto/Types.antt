-- ===== src/Gosuto/Types.antt =====
-- common/spec/gosuto/types.go: the parts of a configuration that the modelled code reads. A map is a
-- list of its entries in the order in which Go happens to visit it.
use ruriko.Prelude.{ℕ, String, Bool, List, Option}
use ruriko.Prelude.Int.{ℤ}
use ruriko.Gosuto.Workflow.{Workflow}

pub record TrustedPeer : Type 0 where
  pub mxid : String
  pub room_id : String
  pub alias : String
  pub protocols : List String

pub record Trust : Type 0 where
  pub allowed_rooms : List String
  pub allowed_senders : List String
  pub require_e2ee : Bool
  pub admin_room : String
  pub trusted_peers : List TrustedPeer

pub record Capability : Type 0 where
  pub name : String
  pub mcp : String
  pub tool : String
  pub allow : Bool
  pub require_approval : Bool
  pub constraints : List (String × String)

pub record MessagingTarget : Type 0 where
  pub room_id : String
  pub alias : String

pub record Messaging : Type 0 where
  pub allowed_targets : List MessagingTarget
  pub max_messages_per_minute : ℤ

pub record Metadata : Type 0 where
  pub name : String
  pub template : String
  pub canonical_name : String
  pub description : String

-- What is read of a float64: `max_monthly_cost` only by its sign.
pub record Limits : Type 0 where
  pub max_requests_per_minute : ℤ
  pub max_tokens_per_request : ℤ
  pub max_concurrent_requests : ℤ
  pub max_monthly_cost_is_negative : Bool
  pub max_events_per_minute : ℤ

-- `ttl_seconds` is not below 0.
pub record Approvals : Type 0 where
  pub enabled : Bool
  pub room : String
  pub approvers : List String
  pub ttl_seconds : ℕ

pub record McpServer : Type 0 where
  pub name : String
  pub command : String
  pub args : List String
  pub env : List (String × String)
  pub auto_restart : Bool

pub record Gateway : Type 0 where
  pub name : String
  pub kind : String
  pub command : String
  pub args : List String
  pub env : List (String × String)
  pub config : List (String × String)
  pub auto_restart : Bool

pub record SecretRef : Type 0 where
  pub name : String
  pub env_var : String
  pub required : Bool

pub record InstructionStep : Type 0 where
  pub trigger : String
  pub action : String

pub record PeerRef : Type 0 where
  pub name : String
  pub role : String

pub record Instructions : Type 0 where
  pub role : String
  pub workflow : List InstructionStep
  pub user : String
  pub peers : List PeerRef

pub record Config : Type 0 where
  pub api_version : String
  pub metadata : Metadata
  pub trust : Trust
  pub limits : Limits
  pub capabilities : List Capability
  pub approvals : Approvals
  pub mcps : List McpServer
  pub gateways : List Gateway
  pub secrets : List SecretRef
  pub temperature_in_range : Option Bool
  pub instructions : Instructions
  pub messaging : Messaging
  pub workflow : Workflow
