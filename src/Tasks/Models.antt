-- ===== src/Tasks/Models.antt =====
-- backend/app/agent_task_models.py: tasks that agents ask for, and the events on them.
use aixion_control_tower.Prelude.{ℕ, ◌≡◌, Bool, Option, String, arith, Eq, enum_eq}
use aixion_control_tower.Prelude.Dict.{Keyed}
use aixion_control_tower.AgentRun.Models.{Instant}
use aixion_control_tower.Trust.Models.{AgentProvider, RiskLevel}

pub data AgentTaskStatus : Type 0 where
  received planning waiting_for_approval approved denied executing testing ready_for_pr failed
        cancelled done :
      AgentTaskStatus

abbrev pub task_status_index : AgentTaskStatus → ℕ
task_status_index AgentTaskStatus.received = 0
task_status_index AgentTaskStatus.planning = 1
task_status_index AgentTaskStatus.waiting_for_approval = 2
task_status_index AgentTaskStatus.approved = 3
task_status_index AgentTaskStatus.denied = 4
task_status_index AgentTaskStatus.executing = 5
task_status_index AgentTaskStatus.testing = 6
task_status_index AgentTaskStatus.ready_for_pr = 7
task_status_index AgentTaskStatus.failed = 8
task_status_index AgentTaskStatus.cancelled = 9
task_status_index AgentTaskStatus.done = 10

pub task_status_index-injective :
    (a b : AgentTaskStatus) → task_status_index a ≡ task_status_index b → a ≡ b
task_status_index-injective a b h = ground arith

instance abbrev pub task_status_eq : Eq AgentTaskStatus
task_status_eq = enum_eq task_status_index task_status_index-injective

pub data AgentTaskRequestedAction : Type 0 where
  create_work_order create_approval review_architecture generate_docs other :
      AgentTaskRequestedAction

pub data AgentTaskEventType : Type 0 where
  task_created plan_received approval_created approved denied execution_started tests_started
        tests_passed tests_failed pr_created result_ready failed cancelled done note :
      AgentTaskEventType

-- `AgentTask`; of its `metadata` only the entry `connector_id` is read.
pub record AgentTask : Type 0 where
  pub id : String
  pub provider : AgentProvider
  pub project_id : Option String
  pub title : String
  pub goal : String
  pub context : String
  pub source_url : Option String
  pub source_session_id : Option String
  pub source_task_id : Option String
  pub requested_action : AgentTaskRequestedAction
  pub repository : Option String
  pub branch_preference : Option String
  pub risk_hint : Option RiskLevel
  pub requires_approval : Bool
  pub connector_id : Option String
  pub status : AgentTaskStatus
  pub external_agent_id : Option String
  pub external_agent_name : Option String
  pub approval_request_id : Option String
  pub worker_lease_owner : Option String
  pub worker_lease_expires_at : Option Instant
  pub worker_lease_token : Option String
  pub created_by_user_id : Option String
  pub created_at : Instant
  pub updated_at : Instant

instance abbrev pub task_keyed : Keyed AgentTask
task_keyed = record { key = λ t. t.id }

-- `AgentTaskEvent`; of its `metadata` only the entry `operation_type` is read.
pub record AgentTaskEvent : Type 0 where
  pub id : String
  pub task_id : String
  pub event_type : AgentTaskEventType
  pub message : String
  pub status : Option AgentTaskStatus
  pub actor : String
  pub operation_type : Option String
  pub created_at : Instant

instance abbrev pub task_event_keyed : Keyed AgentTaskEvent
task_event_keyed = record { key = λ e. e.id }
