-- ===== src/Mcp/Submit.antt =====
-- backend/app/mcp_gateway.py: a tool call that arrives, and the approval it waits for.
use aixion_control_tower.Prelude.{
  Bool, true, not, Option, none, some, List, [], ◌∷◌, ◌++◌, String, contains, string_eq, option_eq,
  if◌then◌else◌,
}
use aixion_control_tower.Prelude.Dict.{put}
use aixion_control_tower.AgentRun.Models.{Instant}
use aixion_control_tower.Approvals.Models.{
  ApprovalRequest, ApprovalStatus, approval_status_eq, approval_keyed,
}
use aixion_control_tower.Prelude.Text.{concat}
use aixion_control_tower.Trust.Models.{AgentProvider}
use aixion_control_tower.Mcp.Gateway.{child_call}
use aixion_control_tower.Mcp.Models.{
  Gateway, McpPendingRequest, McpPendingStatus, Surroundings, ToolCall, mcp_pending_keyed,
  mcp_status_eq, pending_call_keyed,
}

-- `MCP_MUTATING_TOOL_NAMES`
abbrev pub mutating_tool_names : List String
mutating_tool_names = "write_file" ∷ "edit_file" ∷ "apply_patch" ∷ "github_create_pr" ∷ []

-- `_is_mutating`
abbrev pub is_mutating : ToolCall → Bool
is_mutating call = elim call.mutating [
  | some m ↦ m
  | none ↦ contains call.tool_name mutating_tool_names
]

-- The approval that `_create_approval_request` makes, without its risk assessment.
abbrev pub gateway_approval : Surroundings → String → Instant → String → ToolCall → ApprovalRequest
gateway_approval o id now project_id call = record {
  id = id;
  status = ApprovalStatus.requested;
  project_id = project_id;
  work_order_id = none;
  title = concat "Approve MCP tool call: " call.tool_name;
  summary =
      concat "Gateway intercepted mutating MCP call for "
        (concat call.server_name (concat "." call.tool_name));
  agent_name = "mcp-gateway";
  target_branch = concat "mcp-gateway/" call.tool_name;
  files =
      record {
        path = concat "mcp://" (concat call.server_name (concat "/" call.tool_name));
        change_type = "mcp_tool_call";
        diff = concat "MCP mutating tool call requires approval: " (o.dump_call call);
        new_content = some (o.dump_json call);
      }
      ∷ [];
  test_plan = "MCP gateway must forward only after approval." ∷ [];
  rollback_plan = "Deny or expire the approval; the child MCP server receives nothing.";
  source_provider = AgentProvider.other;
  source_agent_id = none;
  source_agent_name = some "mcp-gateway";
  source_session_id = call.session_id;
  source_task_url = none;
  created_by_user_id = none;
  verified_source = true;
  approved_payload_hash = none;
  approved_at = none;
  approved_by_user_id = none;
  created_at = now;
  updated_at = now;
}

abbrev pub new_pending : String → Instant → String → String → ToolCall → McpPendingRequest
new_pending id now project_id approval_id call = record {
  id = id;
  project_id = project_id;
  approval_request_id = approval_id;
  server_name = call.server_name;
  tool_name = call.tool_name;
  arguments = call.arguments;
  session_id = call.session_id;
  requested_by = call.requested_by;
  status = McpPendingStatus.waiting_for_approval;
  attempts = 0;
  max_attempts = 3;
  lease_owner = none;
  lease_expires_at = none;
  last_error = none;
  created_at = now;
  updated_at = now;
}

-- `submit_tool_call`; the ids of the approval and the pending request are drawn by the caller. A call
-- that waits is answered by its approval's id.
unfoldable pub submit_tool_call :
    Surroundings → String → String → Instant → String → ToolCall → Gateway → Option String × Gateway
submit_tool_call o approval_id pending_id now project_id call g =
    if not (is_mutating call) then (none, record g { sent = g.sent ++ child_call call ∷ [] }) else (
      some approval_id,
      record g {
        approvals = put (gateway_approval o approval_id now project_id call) g.approvals;
        pending = put (new_pending pending_id now project_id approval_id call) g.pending;
        pending_calls =
            put (record { approval_request_id = approval_id; call = call }) g.pending_calls;
        audits = g.audits ++ "mcp.approval_requested" ∷ [];
      },
    )
