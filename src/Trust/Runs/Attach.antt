-- ===== src/Trust/Runs/Attach.antt =====
-- The capability lease of a run (agent_run_trust.py: _validate_lease_for_run and
-- attach_capability_lease; trust_run_capability.py). The settings' `trust_enforcement` is an argument.
use aixion_control_tower.Prelude.{
  ◌+◌, ◌-◌, min, Bool, true, false, ◌&&◌, ◌||◌, not, Option, none, some, List, [], ◌∷◌, ◌++◌,
  String, map, ◌==◌, ◌!=◌, contains, is_set, is_some, or_empty, string_eq, option_eq, ltb,
  if◌then◌else◌,
}
use aixion_control_tower.Prelude.Lists.{is_nil, any}
use aixion_control_tower.Prelude.Exec.{
  Exec, Result, ok, err, conflict, not_found, ◌>>=◌, ◌>>◌, pure,
}
use aixion_control_tower.Prelude.Dict.{get}
use aixion_control_tower.Prelude.Text.{concat}
use aixion_control_tower.AgentRun.Models.{
  Instant, AgentRun, AgentRunStatus, AgentRunStep, AgentRunStepStatus, AgentRunStepType,
  AgentRunEventType, run_status_eq, step_status_eq, step_type_eq,
}
use aixion_control_tower.AgentRun.StateMachine.Runs.{terminal_run_statuses}
use aixion_control_tower.AgentRun.Supervisor.State.{run_keyed, step_keyed}
use aixion_control_tower.Approvals.Models.{ApprovalRequest, approval_keyed}
use aixion_control_tower.Tasks.Models.{AgentTask, task_keyed}
use aixion_control_tower.Trust.Models.{
  CapabilityLeaseStatus, CapabilityLeaseMode, CapabilityActionType, lease_status_eq, provider_eq,
}
use aixion_control_tower.Trust.Leases.{CapabilityLease, CapabilityScope, lease_keyed}
use aixion_control_tower.Trust.Records.{AuthUser, CapabilityLeaseCreate}
use aixion_control_tower.Trust.State.{Outside, TrustStore}
use aixion_control_tower.Trust.Service.Lifecycle.{refresh_lease_status}
use aixion_control_tower.Trust.Service.Issue.{issue_capability_lease}
use aixion_control_tower.Trust.Runs.Store.{append_run_event, put_run}

-- `SIDE_EFFECT_STEPS`
abbrev pub side_effect_steps : List AgentRunStepType
side_effect_steps =
    AgentRunStepType.create_branch ∷ AgentRunStepType.apply_changes
    ∷ AgentRunStepType.run_validation ∷ AgentRunStepType.create_pull_request ∷ []

abbrev pub lease_status_value : CapabilityLeaseStatus → String
lease_status_value CapabilityLeaseStatus.active = "ACTIVE"
lease_status_value CapabilityLeaseStatus.expired = "EXPIRED"
lease_status_value CapabilityLeaseStatus.revoked = "REVOKED"
lease_status_value CapabilityLeaseStatus.consumed = "CONSUMED"

-- A condition with the sentence that it adds to `reasons`.
abbrev pub Objection : Type 0
Objection = Bool × String

abbrev pub objections : List Objection → List String
objections [] = []
objections ((condition, reason) ∷ rest) =
    let later = objections rest in if condition then reason ∷ later else later

abbrev pub run_objections : AgentRun → CapabilityLease → Bool → Bool → List Objection
run_objections run lease has_task has_approval =
    (not has_task, "AgentTask is missing.")
    ∷ (not has_approval, "ApprovalRequest is missing.")
    ∷ (
      lease.status != CapabilityLeaseStatus.active,
      concat "Capability lease is not active: " (concat (lease_status_value lease.status) "."),
    )
    ∷ (
      some lease.approval_request_id != run.approval_request_id,
      "Capability lease approval does not match the run approval.",
    )
    ∷ (
      some lease.scope.repository != run.repository,
      "Capability lease repository does not match the run repository.",
    )
    ∷ (
      ltb (lease.scope.max_retries + 1) run.max_attempts_per_step,
      "Run attempt budget exceeds the capability lease retry budget.",
    )
    ∷ []

abbrev pub task_objections : Option AgentTask → CapabilityLease → List Objection
task_objections none lease = []
task_objections (some task) lease =
    (
      lease.provider != task.provider,
      "Capability lease provider does not match the AgentTask provider.",
    )
    ∷ (
      is_set lease.agent_id && (lease.agent_id != task.external_agent_id),
      "Capability lease agent identity does not match the AgentTask agent.",
    )
    ∷ (
      some lease.scope.branch != task.branch_preference,
      "Capability lease branch does not match the AgentTask branch.",
    )
    ∷ []

abbrev pub approval_objections : Option ApprovalRequest → CapabilityLease → List Objection
approval_objections none lease = []
approval_objections (some approval) lease =
    (
      some lease.approved_payload_hash != approval.approved_payload_hash,
      "Capability lease is not bound to the current approved payload hash.",
    )
    ∷ []

-- The `reasons` of `_validate_lease_for_run`, for the lease once it is refreshed.
unfoldable pub lease_reasons : AgentRun → CapabilityLease → TrustStore → List String
lease_reasons run lease store =
    let task = get run.task_id store.tasks in
    let approval = get (or_empty run.approval_request_id) store.approvals in
    objections (run_objections run lease (is_some task) (is_some approval))
    ++ objections (task_objections task lease)
    ++ objections (approval_objections approval lease)

-- `_validate_lease_for_run`: the reasons and the refreshed lease, and the store.
abbrev pub validate_lease_for_run :
    Outside
    → Instant
    → AgentRun
    → CapabilityLease
    → TrustStore
    → (List String × CapabilityLease) × TrustStore
validate_lease_for_run o now run lease store =
    let (refreshed, store') = refresh_lease_status o now lease store in
    ((lease_reasons run refreshed store', refreshed), store')

abbrev pub attach_valid :
    Instant
    → AgentRun
    → String
    → (List String × CapabilityLease) × TrustStore
    → Result AgentRun × TrustStore
attach_valid now run actor ((reasons, lease), store) =
    let bound : AgentRun = record run { capability_lease_id = some lease.id; updated_at = now } in
    if not (is_nil reasons)
    then (err conflict, store)
    else (append_run_event bound none AgentRunEventType.capability_lease_attached "" actor
          >> pure bound)
        (put_run bound store)

abbrev pub attach_found :
    Option CapabilityLease → Outside → Instant → AgentRun → String → Exec TrustStore AgentRun
attach_found none o now run actor store = (err not_found, store)
attach_found (some lease) o now run actor store =
    attach_valid now run actor (validate_lease_for_run o now run lease store)

abbrev pub is_running : Option AgentRunStep → Bool
is_running none = false
is_running (some step) = step.status == AgentRunStepStatus.running

abbrev pub has_attempted : String → AgentRunStep → Bool
has_attempted run_id step =
    (step.run_id == run_id) && contains step.step_type side_effect_steps && ltb 0 step.attempt_count

-- `attach_capability_lease`
unfoldable pub attach_capability_lease :
    Outside → Instant → AgentRun → String → String → Exec TrustStore AgentRun
unfolding lease_reasons refresh_lease_status append_run_event
attach_capability_lease o now run lease_id actor store =
    if is_set run.capability_lease_id
    then if run.capability_lease_id == some lease_id then (ok run, store) else (err conflict, store)
    else if contains run.status terminal_run_statuses || (run.status == AgentRunStatus.evaluating)
    then (err conflict, store)
    else if is_set run.lease_owner || is_set run.lease_token
    then (err conflict, store)
    else if is_running (get (or_empty run.current_step_id) store.steps)
    then (err conflict, store)
    else if any (has_attempted run.id) store.steps
    then (err conflict, store)
    else attach_found (get lease_id store.leases) o now run actor store

-- The scope that `ensure_run_capability` derives from the sealed approval and its task.
abbrev pub derived_scope : AgentRun → AgentTask → ApprovalRequest → CapabilityScope
derived_scope run task approval = record {
  repository = or_empty task.repository;
  branch = or_empty task.branch_preference;
  allowed_actions =
      CapabilityActionType.create_branch ∷ CapabilityActionType.modify_files
      ∷ CapabilityActionType.run_command ∷ CapabilityActionType.create_pull_request ∷ [];
  allowed_path_prefixes = map (λ item. item.path) approval.files;
  allowed_commands = approval.test_plan;
  allowed_network_domains = [];
  max_runtime_seconds = 3600;
  max_cost_usd = 100_000;
  max_retries = min 3 (run.max_attempts_per_step - 1);
  max_pull_requests = 1;
  allow_auto_merge = false;
  run_id = run.id;
  task_id = task.id;
  correlation_id = some run.correlation_id;
  request_fingerprint = none;
}

abbrev pub derived_request : AgentRun → AgentTask → ApprovalRequest → CapabilityLeaseCreate
derived_request run task approval = record {
  approval_request_id = approval.id;
  agent_id = task.external_agent_id;
  provider = task.provider;
  mode = CapabilityLeaseMode.strict;
  scope = derived_scope run task approval;
  expires_in_seconds = 3600;
  required_reviewer_count = 1;
  prevent_self_approval = true;
}

-- `except (ValueError, TrustControlConflict)`: what was raised is a conflict of the run.
abbrev pub as_conflict : {A : Type 0} → Result A × TrustStore → Result A × TrustStore
as_conflict (ok a, store) = (ok a, store)
as_conflict (err e, store) = (err conflict, store)

abbrev pub some_lease :
    Result CapabilityLease × TrustStore → Result (Option CapabilityLease) × TrustStore
some_lease (ok lease, store) = (ok (some lease), store)
some_lease (err e, store) = (err e, store)

abbrev pub derive_lease :
    Option AgentTask
    → Option ApprovalRequest
    → Outside
    → Instant
    → AgentRun
    → AuthUser
    → Exec TrustStore CapabilityLease
derive_lease none approval o now run user store = (err conflict, store)
derive_lease (some task) none o now run user store = (err conflict, store)
derive_lease (some task) (some approval) o now run user store =
    if not (is_set approval.approved_payload_hash)
    then (err conflict, store)
    else if not (is_set task.repository) || not (is_set task.branch_preference)
    then (err conflict, store)
    else as_conflict (
        (issue_capability_lease o now (derived_request run task approval) user >>= λ lease.
        attach_capability_lease o now run lease.id user.email >> pure lease)
          store)

-- `ensure_run_capability`
unfoldable pub ensure_run_capability :
    Outside → Bool → Instant → AgentRun → AuthUser → Exec TrustStore (Option CapabilityLease)
unfolding issue_capability_lease attach_capability_lease
ensure_run_capability o trust_enforcement now run user store =
    if not trust_enforcement
    then (ok none, store)
    else if is_set run.capability_lease_id
    then elim (get (or_empty run.capability_lease_id) store.leases) [
      | none ↦ (err conflict, store)
      | some lease ↦ (ok (some lease), store)
    ]
    else some_lease (
        derive_lease (get run.task_id store.tasks)
          (get (or_empty run.approval_request_id) store.approvals) o now run user store)
