-- ===== src/Mcp/Tests.antt =====
-- The gate at concrete calls.
use aixion_control_tower.Prelude.{◌≡◌, ◌⊎◌, refl, none, some, [], ◌∷◌}
use aixion_control_tower.Approvals.Models.{ApprovalRequest, ApprovalStatus}
use aixion_control_tower.Mcp.Models.{ToolCall, Gateway, Surroundings}
use aixion_control_tower.Mcp.Gateway.{resolve_after_side_channel_decision}
use aixion_control_tower.Mcp.Submit.{gateway_approval, submit_tool_call, new_pending}
use aixion_control_tower.Mcp.GatewayLaws.{MayForward, resolve_after_side_channel_decision-sent}
use aixion_control_tower.Mcp.DeadLetters.{resolve_each, Buried, resolve_each-Buried}

abbrev write_call : ToolCall
write_call = record {
  server_name = "files";
  tool_name = "write_file";
  arguments = ("path", "a.txt") ∷ [];
  session_id = none;
  requested_by = "agent";
  mutating = none;
}

abbrev broken_child : Surroundings
broken_child = record {
  call_tool = λ call. some "down";
  payload_hash = λ snapshot. snapshot.title;
  dump_call = λ call. call.tool_name;
  dump_json = λ call. call.tool_name;
}

abbrev approved_write : ApprovalRequest
approved_write = record (gateway_approval broken_child "approval_1" 0 "project_1" write_call) {
  status = ApprovalStatus.approved;
  approved_payload_hash = some "Approve MCP tool call: write_file";
}

abbrev empty_gate : Gateway
empty_gate = record { approvals = []; pending = []; pending_calls = []; sent = []; audits = [] }

abbrev gate : Gateway
gate =
    record (submit_tool_call broken_child "approval_1" "pending_1" 0 "project_1" write_call
      empty_gate).1 { approvals = approved_write ∷ [] }

resolve_after_side_channel_decision-sent_example :
    MayForward broken_child "approval_1" gate
    ⊎ ((resolve_after_side_channel_decision broken_child 5 "approval_1" gate).1.sent ≡ gate.sent)
resolve_after_side_channel_decision-sent_example =
    resolve_after_side_channel_decision-sent broken_child 5 "approval_1" gate

resolve_each-Buried_example :
    Buried "approval_1"
      (new_pending "pending_1" 0 "project_1" "approval_1" write_call)
      3
      gate
      (resolve_each broken_child "approval_1" (5 ∷ 6 ∷ 7 ∷ []) gate)
unfolding submit_tool_call
resolve_each-Buried_example =
    resolve_each-Buried broken_child "down" "approval_1" 5 (6 ∷ 7 ∷ [])
      (new_pending "pending_1" 0 "project_1" "approval_1" write_call) gate (λ call. refl)
      (record {
        approval = approved_write;
        found = refl;
        approved = refl;
        set = refl;
        unchanged = refl;
      })
      refl refl (λ e. refl, tt) refl
