-- ===== src/AgentRun/Models.antt =====
-- backend/app/agent_run_models.py: the statuses, and the durable records of a Mission Control run.
-- A `datetime` is a number of microseconds, the resolution of Python's `datetime`.
use aixion_control_tower.Prelude.{ℕ, ◌≡◌, Bool, Option, List, [], ◌∷◌, String, arith, Eq, enum_eq}

-- `datetime`
abbrev pub Instant : Type 0
Instant = ℕ

-- `timedelta(seconds=1)`
abbrev pub second : ℕ
second = 1_000_000

pub data AgentRunStatus : Type 0 where
  scheduled running evaluating retry_wait paused needs_human blocked succeeded failed cancelled :
      AgentRunStatus

pub data AgentRunStepType : Type 0 where
  validate_scope create_branch apply_changes run_validation create_pull_request verify_result
        seal_evidence :
      AgentRunStepType

pub data AgentRunStepStatus : Type 0 where
  pending ready running retry_wait paused needs_human blocked succeeded failed cancelled skipped :
      AgentRunStepStatus

pub data VerificationDecision : Type 0 where
  pass retry_transient needs_revision needs_human block_policy fail_permanent : VerificationDecision

pub data AgentRunEventType : Type 0 where
  run_created run_state_changed run_lease_acquired run_heartbeat run_lease_released
        capability_lease_attached trust_policy_evaluated step_ready step_started step_heartbeat
        step_succeeded step_retry_scheduled step_needs_human step_blocked step_failed step_cancelled
        stale_lease_recovered duplicate_delivery_ignored evidence_recorded fault_injected
        operator_action :
      AgentRunEventType

abbrev pub run_status_index : AgentRunStatus → ℕ
run_status_index AgentRunStatus.scheduled = 0
run_status_index AgentRunStatus.running = 1
run_status_index AgentRunStatus.evaluating = 2
run_status_index AgentRunStatus.retry_wait = 3
run_status_index AgentRunStatus.paused = 4
run_status_index AgentRunStatus.needs_human = 5
run_status_index AgentRunStatus.blocked = 6
run_status_index AgentRunStatus.succeeded = 7
run_status_index AgentRunStatus.failed = 8
run_status_index AgentRunStatus.cancelled = 9

pub run_status_index-injective :
    (a b : AgentRunStatus) → run_status_index a ≡ run_status_index b → a ≡ b
run_status_index-injective a b h = ground arith

instance abbrev pub run_status_eq : Eq AgentRunStatus
run_status_eq = enum_eq run_status_index run_status_index-injective

abbrev pub step_status_index : AgentRunStepStatus → ℕ
step_status_index AgentRunStepStatus.pending = 0
step_status_index AgentRunStepStatus.ready = 1
step_status_index AgentRunStepStatus.running = 2
step_status_index AgentRunStepStatus.retry_wait = 3
step_status_index AgentRunStepStatus.paused = 4
step_status_index AgentRunStepStatus.needs_human = 5
step_status_index AgentRunStepStatus.blocked = 6
step_status_index AgentRunStepStatus.succeeded = 7
step_status_index AgentRunStepStatus.failed = 8
step_status_index AgentRunStepStatus.cancelled = 9
step_status_index AgentRunStepStatus.skipped = 10

pub step_status_index-injective :
    (a b : AgentRunStepStatus) → step_status_index a ≡ step_status_index b → a ≡ b
step_status_index-injective a b h = ground arith

instance abbrev pub step_status_eq : Eq AgentRunStepStatus
step_status_eq = enum_eq step_status_index step_status_index-injective

abbrev pub step_type_index : AgentRunStepType → ℕ
step_type_index AgentRunStepType.validate_scope = 0
step_type_index AgentRunStepType.create_branch = 1
step_type_index AgentRunStepType.apply_changes = 2
step_type_index AgentRunStepType.run_validation = 3
step_type_index AgentRunStepType.create_pull_request = 4
step_type_index AgentRunStepType.verify_result = 5
step_type_index AgentRunStepType.seal_evidence = 6

pub step_type_index-injective :
    (a b : AgentRunStepType) → step_type_index a ≡ step_type_index b → a ≡ b
step_type_index-injective a b h = ground arith

instance abbrev pub step_type_eq : Eq AgentRunStepType
step_type_eq = enum_eq step_type_index step_type_index-injective

abbrev pub decision_index : VerificationDecision → ℕ
decision_index VerificationDecision.pass = 0
decision_index VerificationDecision.retry_transient = 1
decision_index VerificationDecision.needs_revision = 2
decision_index VerificationDecision.needs_human = 3
decision_index VerificationDecision.block_policy = 4
decision_index VerificationDecision.fail_permanent = 5

pub decision_index-injective :
    (a b : VerificationDecision) → decision_index a ≡ decision_index b → a ≡ b
decision_index-injective a b h = ground arith

instance abbrev pub decision_eq : Eq VerificationDecision
decision_eq = enum_eq decision_index decision_index-injective

-- `DEFAULT_AGENT_RUN_STEPS`
abbrev pub default_agent_run_steps : List AgentRunStepType
default_agent_run_steps =
    validate_scope ∷ create_branch ∷ apply_changes ∷ run_validation ∷ create_pull_request
    ∷ verify_result ∷ seal_evidence ∷ []

-- The free-form `metadata` of a run is left out.
pub record AgentRun : Type 0 where
  pub id : String
  pub task_id : String
  pub approval_request_id : Option String
  pub capability_lease_id : Option String
  pub project_id : Option String
  pub repository : Option String
  pub objective : String
  pub correlation_id : String
  pub status : AgentRunStatus
  pub current_step_id : Option String
  pub current_step_index : ℕ
  pub max_attempts_per_step : ℕ
  pub pause_requested : Bool
  pub cancel_requested : Bool
  pub lease_owner : Option String
  pub lease_token : Option String
  pub lease_expires_at : Option Instant
  pub heartbeat_at : Option Instant
  pub started_at : Option Instant
  pub completed_at : Option Instant
  pub final_evidence_hash : Option String
  pub last_error : Option String
  pub created_at : Instant
  pub updated_at : Instant

-- The evidence of a step: the keys and the rendered values of the `evidence` dict.
abbrev pub Evidence : Type 0
Evidence = List (String × String)

pub record AgentRunStep : Type 0 where
  pub id : String
  pub run_id : String
  pub task_id : String
  pub sequence : ℕ
  pub step_type : AgentRunStepType
  pub status : AgentRunStepStatus
  pub attempt_count : ℕ
  pub max_attempts : ℕ
  pub idempotency_key : String
  pub lease_owner : Option String
  pub lease_token : Option String
  pub lease_expires_at : Option Instant
  pub heartbeat_at : Option Instant
  pub next_retry_at : Option Instant
  pub started_at : Option Instant
  pub completed_at : Option Instant
  pub duration_ms : Option ℕ
  pub decision : Option VerificationDecision
  pub reason : String
  pub last_error : Option String
  pub evidence : Evidence
  pub evidence_hash : Option String
  pub output_reference : Option String
  pub created_at : Instant
  pub updated_at : Instant

pub record AgentRunStepExecutionResult : Type 0 where
  pub success : Bool
  pub decision : VerificationDecision
  pub reason : String
  pub evidence : Evidence
  pub output_reference : Option String

-- The `previous_status` and `new_status` of an event are the values of either enumeration.
pub data StatusValue : Type 0 where
  of_run : AgentRunStatus → StatusValue
  of_step : AgentRunStepStatus → StatusValue

-- The fixed `message` texts, the `metadata` and the input hash of an event are left out.
pub record AgentRunEvent : Type 0 where
  pub run_id : String
  pub step_id : Option String
  pub event_type : AgentRunEventType
  pub previous_status : Option StatusValue
  pub new_status : Option StatusValue
  pub reason : String
  pub actor : String
  pub attempt_number : Option ℕ
  pub output_evidence_hash : Option String
