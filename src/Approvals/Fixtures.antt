-- ===== src/Approvals/Fixtures.antt =====
-- An approval for the concrete runs.
use aixion_control_tower.Prelude.{true, none, some, [], ◌∷◌}
use aixion_control_tower.Trust.Models.{AgentProvider}
use aixion_control_tower.Approvals.Models.{ApprovalStatus, ApprovalRequest, bucket_eq}

abbrev pub login_approval : ApprovalRequest
login_approval = record {
  id = "approval_1";
  status = ApprovalStatus.requested;
  project_id = "project_1";
  work_order_id = none;
  title = "Fix the login";
  summary = "";
  agent_name = "agent";
  target_branch = "feature/x";
  files =
      record { path = "src/app.py"; change_type = "update"; diff = ""; new_content = none } ∷ [];
  test_plan = "pytest" ∷ [];
  rollback_plan = "";
  source_provider = AgentProvider.claude;
  source_agent_id = none;
  source_agent_name = none;
  source_session_id = none;
  source_task_url = none;
  created_by_user_id = some "author";
  verified_source = true;
  approved_payload_hash = none;
  approved_at = none;
  approved_by_user_id = none;
  created_at = 0;
  updated_at = 0;
}
