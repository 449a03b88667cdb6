-- ===== src/Tasks/Operator.antt =====
-- backend/app/agent_task_retry.py and agent_task_cancel.py: an operator's retry or cancellation of
-- a task. The wording of a summary's reason is a value.
use aixion_control_tower.Prelude.{
  ℕ, Bool, true, false, ◌&&◌, not, none, some, List, [], ◌∷◌, String, ◌==◌, ◌!=◌, contains, is_set,
  leb, keep, length, option_eq, string_eq, if◌then◌else◌,
}
use aixion_control_tower.Prelude.Exec.{ok, err, conflict, not_found, Exec}
use aixion_control_tower.Prelude.Dict.{get, put}
use aixion_control_tower.AgentRun.Models.{Instant}
use aixion_control_tower.Tasks.Models.{
  AgentTask, AgentTaskStatus, AgentTaskEvent, AgentTaskEventType, task_status_eq, task_keyed,
  task_event_keyed,
}

-- The tasks and their events.
pub record TaskStore : Type 0 where
  pub tasks : List AgentTask
  pub events : List AgentTaskEvent

-- `RETRY_REQUESTED_OPERATION`, `CANCEL_REQUESTED_OPERATION`
abbrev pub retry_requested_operation : String
retry_requested_operation = "agent_task_retry_requested"

abbrev pub cancel_requested_operation : String
cancel_requested_operation = "agent_task_cancel_requested"

abbrev pub is_retry_request : String → AgentTaskEvent → Bool
is_retry_request task_id event =
    (event.task_id == task_id) && (event.operation_type == some retry_requested_operation)

-- `count_retry_requests`
abbrev pub count_retry_requests : String → List AgentTaskEvent → ℕ
count_retry_requests task_id events = length (keep (is_retry_request task_id) events)

pub data RetryReason : Type 0 where
  not_failed no_approval limit_reached can_be_retried : RetryReason

pub record AgentTaskRetrySummary : Type 0 where
  pub retry_count : ℕ
  pub max_retries : ℕ
  pub retry_allowed : Bool
  pub reason : RetryReason

abbrev pub answer_retry : ℕ → ℕ → Bool → RetryReason → AgentTaskRetrySummary
answer_retry retry_count max_retries allowed reason = record {
  retry_count = retry_count;
  max_retries = max_retries;
  retry_allowed = allowed;
  reason = reason;
}

unfoldable pub retry_summary : ℕ → AgentTask → List AgentTaskEvent → AgentTaskRetrySummary
retry_summary max_retries task events =
    let retry_count = count_retry_requests task.id events in
    let answer = answer_retry retry_count max_retries in
    if task.status != AgentTaskStatus.failed
    then answer false RetryReason.not_failed
    else if not (is_set task.approval_request_id)
    then answer false RetryReason.no_approval
    else if leb max_retries retry_count
    then answer false RetryReason.limit_reached
    else answer true RetryReason.can_be_retried

abbrev pub release_worker : Instant → AgentTaskStatus → AgentTask → AgentTask
release_worker now status task = record task {
  status = status;
  worker_lease_owner = none;
  worker_lease_expires_at = none;
  worker_lease_token = none;
  updated_at = now;
}

abbrev pub retry_event : String → Instant → String → AgentTask → AgentTaskEvent
retry_event id now actor task = record {
  id = id;
  task_id = task.id;
  event_type = AgentTaskEventType.note;
  message = "Agent task retry requested by operator.";
  status = some AgentTaskStatus.approved;
  actor = actor;
  operation_type = some retry_requested_operation;
  created_at = now;
}

-- `append_retry_requested_event`, with the event's id fresh
unfoldable pub append_retry_requested_event :
    String → Instant → String → AgentTask → TaskStore → TaskStore
append_retry_requested_event id now actor task store = record {
  tasks = put (release_worker now AgentTaskStatus.approved task) store.tasks;
  events = put (retry_event id now actor task) store.events;
}

-- `CANCELLABLE_STATUSES`
abbrev pub cancellable_statuses : List AgentTaskStatus
cancellable_statuses =
    AgentTaskStatus.received ∷ AgentTaskStatus.planning ∷ AgentTaskStatus.waiting_for_approval
    ∷ AgentTaskStatus.approved ∷ AgentTaskStatus.executing ∷ AgentTaskStatus.testing
    ∷ AgentTaskStatus.failed ∷ []

-- `TERMINAL_OR_REVIEW_STATUSES`
abbrev pub terminal_or_review_statuses : List AgentTaskStatus
terminal_or_review_statuses =
    AgentTaskStatus.cancelled ∷ AgentTaskStatus.denied ∷ AgentTaskStatus.done
    ∷ AgentTaskStatus.ready_for_pr ∷ []

pub data CancelReason : Type 0 where
  can_be_cancelled needs_cleanup already_terminal other_status : CancelReason

pub record AgentTaskCancelSummary : Type 0 where
  pub current_status : AgentTaskStatus
  pub cancel_allowed : Bool
  pub reason : CancelReason

abbrev pub answer_cancel : AgentTaskStatus → Bool → CancelReason → AgentTaskCancelSummary
answer_cancel status allowed reason = record {
  current_status = status;
  cancel_allowed = allowed;
  reason = reason;
}

unfoldable pub cancel_summary : AgentTask → AgentTaskCancelSummary
cancel_summary task =
    let answer = answer_cancel task.status in
    if contains task.status cancellable_statuses
    then answer true CancelReason.can_be_cancelled
    else if task.status == AgentTaskStatus.ready_for_pr
    then answer false CancelReason.needs_cleanup
    else if contains task.status terminal_or_review_statuses
    then answer false CancelReason.already_terminal
    else answer false CancelReason.other_status

-- `append_cancel_requested_event`, with the event's id fresh
unfoldable pub append_cancel_requested_event :
    String → Instant → String → AgentTask → TaskStore → TaskStore
append_cancel_requested_event id now actor task store = record {
  tasks = put (release_worker now AgentTaskStatus.cancelled task) store.tasks;
  events =
      put
        (record {
          id = id;
          task_id = task.id;
          event_type = AgentTaskEventType.cancelled;
          message = "Agent task cancelled by operator.";
          status = some AgentTaskStatus.cancelled;
          actor = actor;
          operation_type = some cancel_requested_operation;
          created_at = now;
        })
        store.events;
}

-- The routes `retry_agent_task` and `cancel_agent_task` of agent_task_routes.py, on a task that was
-- found; 409 is a conflict.
unfoldable pub retry_agent_task : String → Instant → String → ℕ → String → Exec TaskStore (Unit {0})
unfolding retry_summary append_retry_requested_event
retry_agent_task id now actor max_retries task_id store = elim (get task_id store.tasks) [
  | none ↦ (err not_found, store)
  | some task ↦
      if not (retry_summary max_retries task store.events).retry_allowed
      then (err conflict, store)
      else (ok tt, append_retry_requested_event id now actor task store)
]

unfoldable pub cancel_agent_task : String → Instant → String → String → Exec TaskStore (Unit {0})
unfolding cancel_summary append_cancel_requested_event
cancel_agent_task id now actor task_id store = elim (get task_id store.tasks) [
  | none ↦ (err not_found, store)
  | some task ↦
      if not (cancel_summary task).cancel_allowed
      then (err conflict, store)
      else (ok tt, append_cancel_requested_event id now actor task store)
]
