-- ===== src/Approvals/Models.antt =====
-- The statuses of an approval (backend/app/models.py) and the buckets of the dashboard
-- (backend/app/approval_lifecycle.py).
use aixion_control_tower.Prelude.{ℕ, ◌≡◌, Bool, Option, List, String, arith, Eq, enum_eq}
use aixion_control_tower.Prelude.Dict.{Keyed}
use aixion_control_tower.AgentRun.Models.{Instant}
use aixion_control_tower.Trust.Models.{AgentProvider}

pub data ApprovalStatus : Type 0 where
  requested approved denied expired executing ready_for_pr failed merged cancelled pending_review
        rejected revision_requested blocked applied tests_running tests_passed tests_failed :
      ApprovalStatus

abbrev pub approval_status_index : ApprovalStatus → ℕ
approval_status_index ApprovalStatus.requested = 0
approval_status_index ApprovalStatus.approved = 1
approval_status_index ApprovalStatus.denied = 2
approval_status_index ApprovalStatus.expired = 3
approval_status_index ApprovalStatus.executing = 4
approval_status_index ApprovalStatus.ready_for_pr = 5
approval_status_index ApprovalStatus.failed = 6
approval_status_index ApprovalStatus.merged = 7
approval_status_index ApprovalStatus.cancelled = 8
approval_status_index ApprovalStatus.pending_review = 9
approval_status_index ApprovalStatus.rejected = 10
approval_status_index ApprovalStatus.revision_requested = 11
approval_status_index ApprovalStatus.blocked = 12
approval_status_index ApprovalStatus.applied = 13
approval_status_index ApprovalStatus.tests_running = 14
approval_status_index ApprovalStatus.tests_passed = 15
approval_status_index ApprovalStatus.tests_failed = 16

pub approval_status_index-injective :
    (a b : ApprovalStatus) → approval_status_index a ≡ approval_status_index b → a ≡ b
approval_status_index-injective a b h = ground arith

instance abbrev pub approval_status_eq : Eq ApprovalStatus
approval_status_eq = enum_eq approval_status_index approval_status_index-injective

-- The keys of `DASHBOARD_BUCKETS`, in their order.
pub data DashboardBucket : Type 0 where
  action_required approved_waiting executing ready_for_pr failed completed history : DashboardBucket

abbrev pub bucket_index : DashboardBucket → ℕ
bucket_index DashboardBucket.action_required = 0
bucket_index DashboardBucket.approved_waiting = 1
bucket_index DashboardBucket.executing = 2
bucket_index DashboardBucket.ready_for_pr = 3
bucket_index DashboardBucket.failed = 4
bucket_index DashboardBucket.completed = 5
bucket_index DashboardBucket.history = 6

pub bucket_index-injective : (a b : DashboardBucket) → bucket_index a ≡ bucket_index b → a ≡ b
bucket_index-injective a b h = ground arith

instance abbrev pub bucket_eq : Eq DashboardBucket
bucket_eq = enum_eq bucket_index bucket_index-injective

pub record FileChange : Type 0 where
  pub path : String
  pub change_type : String
  pub diff : String
  pub new_content : Option String

-- `ApprovalRequest`, without its risk assessment.
pub record ApprovalRequest : Type 0 where
  pub id : String
  pub status : ApprovalStatus
  pub project_id : String
  pub work_order_id : Option String
  pub title : String
  pub summary : String
  pub agent_name : String
  pub target_branch : String
  pub files : List FileChange
  pub test_plan : List String
  pub rollback_plan : String
  pub source_provider : AgentProvider
  pub source_agent_id : Option String
  pub source_agent_name : Option String
  pub source_session_id : Option String
  pub source_task_url : Option String
  pub created_by_user_id : Option String
  pub verified_source : Bool
  pub approved_payload_hash : Option String
  pub approved_at : Option Instant
  pub approved_by_user_id : Option String
  pub created_at : Instant
  pub updated_at : Instant

instance abbrev pub approval_keyed : Keyed ApprovalRequest
approval_keyed = record { key = λ a. a.id }
