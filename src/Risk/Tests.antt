-- ===== src/Risk/Tests.antt =====
-- The risk engine at concrete requests.
use aixion_control_tower.Prelude.{◌≡◌, refl, none, [], ◌∷◌}
use aixion_control_tower.Prelude.Text.{lower_code}
use aixion_control_tower.Trust.Models.{RiskLevel}
use aixion_control_tower.Risk.Engine.{
  ApprovalRequestCreate, assess_approval_request, assess_work_order, is_blocked_branch, touches,
  is_blank,
}

abbrev documented_change : ApprovalRequestCreate
documented_change = record {
  project_id = "project_1";
  work_order_id = none;
  title = "Add a page";
  summary = "A page and its notes";
  agent_name = "manual-agent";
  target_branch = "feature/page";
  files =
      record { path = "docs/page.md"; change_type = "modify"; diff = "+ notes"; new_content = none }
      ∷ record {
        path = "deploy/Page.yaml";
        change_type = "modify";
        diff = "+ page";
        new_content = none;
      }
      ∷ record { path = "src/page.py"; change_type = "modify"; diff = "+ page"; new_content = none }
      ∷ [];
  test_plan = [];
  rollback_plan = " ";
  source_provider = none;
  source_agent_id = none;
  source_agent_name = none;
  source_session_id = none;
  source_task_url = none;
}

documented_change_level : (assess_approval_request documented_change).level ≡ RiskLevel.high
unfolding assess_approval_request is_blocked_branch touches is_blank lower_code
documented_change_level = refl

documented_change_actions :
    (assess_approval_request documented_change).required_actions
    ≡ "Add a test plan before approval." ∷ "Add a rollback plan before approval." ∷ []
unfolding assess_approval_request is_blocked_branch touches is_blank lower_code
documented_change_actions = refl

work_order_level :
    assess_work_order (record {
      project_id = "project_1";
      idea_id = none;
      goal = "Show prices";
      context = "";
      tasks = "extend the Dashboard" ∷ [];
      affected_areas = [];
      required_tests = [];
      rollback_plan = "";
    })
    ≡ RiskLevel.medium
unfolding assess_work_order touches lower_code
work_order_level = refl
