-- ===== src/Mcp/Models.antt =====
-- backend/app/mcp_gateway.py and models.py: the pending requests of the gateway, its tool calls and its
-- state. The child server's answer to a call is a parameter, and the calls that it was sent are kept in
-- the state; the events that wake a waiting client are left out.
use aixion_control_tower.Prelude.{
  ℕ, ◌≡◌, Bool, Option, List, String, arith, Eq, enum_eq, string_eq, option_eq,
}
use aixion_control_tower.Prelude.Dict.{Keyed}
use aixion_control_tower.AgentRun.Models.{Instant, Evidence}
use aixion_control_tower.Approvals.Models.{ApprovalRequest, approval_status_eq, approval_keyed}
use aixion_control_tower.Approvals.Integrity.{ApprovalSnapshot}

pub data McpPendingStatus : Type 0 where
  waiting_for_approval forwarding forwarded blocked_by_decision orphaned dead_letter :
      McpPendingStatus

abbrev pub mcp_status_index : McpPendingStatus → ℕ
mcp_status_index McpPendingStatus.waiting_for_approval = 0
mcp_status_index McpPendingStatus.forwarding = 1
mcp_status_index McpPendingStatus.forwarded = 2
mcp_status_index McpPendingStatus.blocked_by_decision = 3
mcp_status_index McpPendingStatus.orphaned = 4
mcp_status_index McpPendingStatus.dead_letter = 5

pub mcp_status_index-injective :
    (a b : McpPendingStatus) → mcp_status_index a ≡ mcp_status_index b → a ≡ b
mcp_status_index-injective a b h = ground arith

instance abbrev pub mcp_status_eq : Eq McpPendingStatus
mcp_status_eq = enum_eq mcp_status_index mcp_status_index-injective

pub record McpPendingRequest : Type 0 where
  pub id : String
  pub project_id : String
  pub approval_request_id : String
  pub server_name : String
  pub tool_name : String
  pub arguments : Evidence
  pub session_id : Option String
  pub requested_by : String
  pub status : McpPendingStatus
  pub attempts : ℕ
  pub max_attempts : ℕ
  pub lease_owner : Option String
  pub lease_expires_at : Option Instant
  pub last_error : Option String
  pub created_at : Instant
  pub updated_at : Instant

instance abbrev pub mcp_pending_keyed : Keyed McpPendingRequest
mcp_pending_keyed = record { key = λ p. p.id }

-- `MCPGatewayToolCall`
pub record ToolCall : Type 0 where
  pub server_name : String
  pub tool_name : String
  pub arguments : Evidence
  pub session_id : Option String
  pub requested_by : String
  pub mutating : Option Bool

-- `ChildMCPToolCall`, which the child server receives
pub record ChildMcpToolCall : Type 0 where
  pub server_name : String
  pub tool_name : String
  pub arguments : Evidence
  pub session_id : Option String
  pub requested_by : String

-- An entry of `_pending_calls`.
pub record PendingCall : Type 0 where
  pub approval_request_id : String
  pub call : ToolCall

instance abbrev pub pending_call_keyed : Keyed PendingCall
pending_call_keyed = record { key = λ c. c.approval_request_id }

-- The gateway and what it touches of the store; `sent` are the calls that the child was sent.
pub record Gateway : Type 0 where
  pub approvals : List ApprovalRequest
  pub pending : List McpPendingRequest
  pub pending_calls : List PendingCall
  pub sent : List ChildMcpToolCall
  pub audits : List String

-- The `reason` of a decision that forwards nothing.
pub data Held : Type 0 where
  already_final already_leased no_approval not_approved hash_missing payload_changed no_call
        forward_failed :
      Held

-- `MCPGatewayDecision`
pub data McpDecision : Type 0 where
  forwarded_call : McpDecision
  held : Held → McpDecision

-- What is known of the child: its answer to a call, an error or none; the payload hash and the texts
-- of `model_dump`, as a Python value and as JSON.
pub record Surroundings : Type 0 where
  pub call_tool : ChildMcpToolCall → Option String
  pub payload_hash : ApprovalSnapshot → String
  pub dump_call : ToolCall → String
  pub dump_json : ToolCall → String
