-- ===== src/AgentRun/StateMachine/Derive.antt =====
-- `derive_run_status` of agent_run_state_machine.py.
use aixion_control_tower.Prelude.{
  Bool, ◌&&◌, ◌||◌, not, List, [], ◌∷◌, ◌==◌, contains, if◌then◌else◌, any, all, is_nil,
}
use aixion_control_tower.AgentRun.Models.{
  AgentRunStatus, AgentRunStepStatus, AgentRunStep, step_status_eq,
}

-- `any(step.status == status for step in steps)`
abbrev pub some_step_is : AgentRunStepStatus → List AgentRunStep → Bool
some_step_is status = any (λ step. step.status == status)

abbrev pub passed_statuses : List AgentRunStepStatus
passed_statuses = AgentRunStepStatus.succeeded ∷ AgentRunStepStatus.skipped ∷ []

unfoldable pub derive_run_status : List AgentRunStep → Bool → Bool → AgentRunStatus
derive_run_status steps pause_requested cancel_requested =
    if cancel_requested
    then AgentRunStatus.cancelled
    else if some_step_is AgentRunStepStatus.blocked steps
    then AgentRunStatus.blocked
    else if some_step_is AgentRunStepStatus.needs_human steps
    then AgentRunStatus.needs_human
    else if some_step_is AgentRunStepStatus.failed steps
    then AgentRunStatus.failed
    else if pause_requested || some_step_is AgentRunStepStatus.paused steps
    then AgentRunStatus.paused
    else if not (is_nil steps) && all (λ step. contains step.status passed_statuses) steps
    then AgentRunStatus.succeeded
    else if some_step_is AgentRunStepStatus.retry_wait steps
    then AgentRunStatus.retry_wait
    else if some_step_is AgentRunStepStatus.running steps
    then AgentRunStatus.running
    else AgentRunStatus.scheduled
