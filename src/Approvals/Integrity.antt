-- ===== src/Approvals/Integrity.antt =====
-- backend/app/approval_integrity.py: the payload of an approval that is frozen when it is approved.
-- The hash of a snapshot is a parameter where it is used.
use aixion_control_tower.Prelude.{Option, List, String}
use aixion_control_tower.Trust.Models.{AgentProvider}
use aixion_control_tower.Approvals.Models.{ApprovalRequest, FileChange}

pub record ApprovalSnapshot : Type 0 where
  pub project_id : String
  pub work_order_id : Option String
  pub title : String
  pub summary : String
  pub agent_name : String
  pub target_branch : String
  pub files : List FileChange
  pub test_plan : List String
  pub rollback_plan : String
  pub source_provider : AgentProvider
  pub source_agent_id : Option String
  pub source_agent_name : Option String
  pub source_session_id : Option String
  pub source_task_url : Option String

-- `approval_payload_snapshot`
abbrev pub approval_payload_snapshot : ApprovalRequest → ApprovalSnapshot
approval_payload_snapshot approval = record {
  project_id = approval.project_id;
  work_order_id = approval.work_order_id;
  title = approval.title;
  summary = approval.summary;
  agent_name = approval.agent_name;
  target_branch = approval.target_branch;
  files = approval.files;
  test_plan = approval.test_plan;
  rollback_plan = approval.rollback_plan;
  source_provider = approval.source_provider;
  source_agent_id = approval.source_agent_id;
  source_agent_name = approval.source_agent_name;
  source_session_id = approval.source_session_id;
  source_task_url = approval.source_task_url;
}
