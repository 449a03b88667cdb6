-- ===== src/Tasks/Fixtures.antt =====
-- A task for the concrete runs.
use aixion_control_tower.Prelude.{true, none, some}
use aixion_control_tower.Trust.Models.{AgentProvider}
use aixion_control_tower.Tasks.Models.{AgentTask, AgentTaskStatus, AgentTaskRequestedAction}

abbrev pub login_task : AgentTask
login_task = record {
  id = "task_1";
  provider = AgentProvider.claude;
  project_id = none;
  title = "Fix the login";
  goal = "";
  context = "";
  source_url = none;
  source_session_id = none;
  source_task_id = none;
  requested_action = AgentTaskRequestedAction.create_approval;
  repository = some "owner/name";
  branch_preference = some "feature/x";
  risk_hint = none;
  requires_approval = true;
  connector_id = none;
  status = AgentTaskStatus.approved;
  external_agent_id = none;
  external_agent_name = none;
  approval_request_id = some "approval_1";
  worker_lease_owner = none;
  worker_lease_expires_at = none;
  worker_lease_token = none;
  created_by_user_id = none;
  created_at = 0;
  updated_at = 0;
}
