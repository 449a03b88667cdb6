-- ===== src/Trust/Runs/Actions.antt =====
-- The actions that a step of a run proposes (agent_run_trust.py: _action_id, _step_actions and
-- _preflight_aggregate_budget).
use aixion_control_tower.Prelude.{
  ℕ, ◌+◌, Bool, false, ◌&&◌, Option, none, some, List, [], ◌∷◌, String, map, ◌==◌, or_empty,
  string_eq, nat_eq, bool_eq, option_eq, list_eq, ltb, if◌then◌else◌,
}
use aixion_control_tower.Prelude.Dict.{get}
use aixion_control_tower.AgentRun.Models.{AgentRun, AgentRunStep, AgentRunStepType}
use aixion_control_tower.Approvals.Models.{ApprovalRequest, approval_keyed}
use aixion_control_tower.Tasks.Models.{AgentTask, task_keyed}
use aixion_control_tower.Trust.Models.{CapabilityActionType, action_type_eq, provider_eq}
use aixion_control_tower.Trust.Leases.{CapabilityLease, ProposedAction}
use aixion_control_tower.Trust.State.{Outside, TrustStore, ActionSuffix}

-- An action of the step, with what all of them have in common; `fill` adds paths or a command.
abbrev pub step_action :
    Outside
    → AgentRun
    → AgentRunStep
    → AgentTask
    → ℕ
    → ActionSuffix
    → CapabilityActionType
    → List String
    → Option String
    → ProposedAction
step_action o run step task timeout_seconds suffix action_type paths command = record {
  id = o.action_id (record {
    run_id = run.id;
    step_id = step.id;
    next_attempt = step.attempt_count + 1;
    suffix = suffix;
    capability_lease_id = run.capability_lease_id;
  });
  lease_id = run.capability_lease_id;
  provider = task.provider;
  agent_id = task.external_agent_id;
  run_id = some run.id;
  task_id = some task.id;
  project_id = task.project_id;
  action_type = action_type;
  repository = task.repository;
  branch = task.branch_preference;
  paths = paths;
  command = command;
  network_domains = [];
  estimated_runtime_seconds = timeout_seconds;
  estimated_cost_usd = 0;
  retry_number = step.attempt_count;
  auto_merge = false;
  step_id = step.id;
  created_at = step.created_at;
}

-- `for index, command in enumerate(approval.test_plan)`
abbrev pub command_actions :
    Outside → AgentRun → AgentRunStep → AgentTask → ℕ → ℕ → List String → List ProposedAction
command_actions o run step task timeout_seconds index [] = []
command_actions o run step task timeout_seconds index (command ∷ rest) =
    step_action o run step task timeout_seconds (ActionSuffix.command index)
      CapabilityActionType.run_command [] (some command)
    ∷ command_actions o run step task timeout_seconds (index + 1) rest

abbrev pub actions_of_type :
    AgentRunStepType
    → Outside
    → AgentRun
    → AgentRunStep
    → AgentTask
    → ApprovalRequest
    → ℕ
    → List ProposedAction
actions_of_type AgentRunStepType.create_branch o run step task approval timeout_seconds =
    step_action o run step task timeout_seconds ActionSuffix.branch
      CapabilityActionType.create_branch [] none
    ∷ []
actions_of_type AgentRunStepType.apply_changes o run step task approval timeout_seconds =
    step_action o run step task timeout_seconds ActionSuffix.files CapabilityActionType.modify_files
      (map (λ item. item.path) approval.files) none
    ∷ []
actions_of_type AgentRunStepType.run_validation o run step task approval timeout_seconds =
    command_actions o run step task timeout_seconds 0 approval.test_plan
actions_of_type AgentRunStepType.create_pull_request o run step task approval timeout_seconds =
    step_action o run step task timeout_seconds ActionSuffix.pull_request
      CapabilityActionType.create_pull_request [] none
    ∷ []
actions_of_type AgentRunStepType.validate_scope o run step task approval timeout_seconds = []
actions_of_type AgentRunStepType.verify_result o run step task approval timeout_seconds = []
actions_of_type AgentRunStepType.seal_evidence o run step task approval timeout_seconds = []

abbrev pub actions_given :
    Option AgentTask
    → Option ApprovalRequest
    → Outside
    → AgentRun
    → AgentRunStep
    → ℕ
    → Option (List ProposedAction)
actions_given none approval o run step timeout_seconds = none
actions_given (some task) none o run step timeout_seconds = none
actions_given (some task) (some approval) o run step timeout_seconds =
    some (actions_of_type step.step_type o run step task approval timeout_seconds)

-- `_step_actions`; `none` where it raises.
unfoldable pub step_actions :
    Outside → AgentRun → AgentRunStep → ℕ → TrustStore → Option (List ProposedAction)
step_actions o run step timeout_seconds store =
    actions_given (get run.task_id store.tasks)
      (get (or_empty run.approval_request_id) store.approvals) o run step timeout_seconds

-- `sum(f(action) for action in actions)`
abbrev pub total : (ProposedAction → ℕ) → List ProposedAction → ℕ
total f [] = 0
total f (action ∷ rest) = f action + total f rest

abbrev pub is_pull_request : ProposedAction → ℕ
is_pull_request action =
    if action.action_type == CapabilityActionType.create_pull_request then 1 else 0

-- The error of `_preflight_aggregate_budget`, if it raises one.
unfoldable pub preflight_aggregate_budget : CapabilityLease → List ProposedAction → Option String
preflight_aggregate_budget lease actions =
    let projected_runtime =
      lease.consumed_runtime_seconds + total (λ a. a.estimated_runtime_seconds) actions in
    let projected_cost = lease.consumed_cost_usd + total (λ a. a.estimated_cost_usd) actions in
    let projected_prs = lease.consumed_pull_requests + total is_pull_request actions in
    if ltb lease.scope.max_runtime_seconds projected_runtime
    then some "Trust preflight blocked execution because aggregate runtime exceeds the lease."
    else if ltb lease.scope.max_cost_usd projected_cost
    then some "Trust preflight blocked execution because aggregate cost exceeds the lease."
    else if ltb lease.scope.max_pull_requests projected_prs
    then some "Trust preflight blocked execution because the PR budget is exhausted."
    else none

-- `existing_payload == action_payload`: all but the time of creation.
abbrev pub same_action : ProposedAction → ProposedAction → Bool
same_action a b =
    (a.id == b.id)
    && (a.lease_id == b.lease_id)
    && (a.provider == b.provider)
    && (a.agent_id == b.agent_id)
    && (a.run_id == b.run_id)
    && (a.task_id == b.task_id)
    && (a.project_id == b.project_id)
    && (a.action_type == b.action_type)
    && (a.repository == b.repository)
    && (a.branch == b.branch)
    && (a.paths == b.paths)
    && (a.command == b.command)
    && (a.network_domains == b.network_domains)
    && (a.estimated_runtime_seconds == b.estimated_runtime_seconds)
    && (a.estimated_cost_usd == b.estimated_cost_usd)
    && (a.retry_number == b.retry_number)
    && (a.auto_merge == b.auto_merge)
    && (a.step_id == b.step_id)
