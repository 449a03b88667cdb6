-- ===== src/AgentRun/Supervisor/Control.antt =====
-- The operator's controls of agent_run_supervisor.py: pause, resume, cancel, retry, and
-- `recompute_run_status`.
use aixion_control_tower.Prelude.{
  true, false, not, Option, none, some, List, [], ◌∷◌, String, ◌==◌, ◌!=◌, contains, string_eq, leb,
  if◌then◌else◌,
}
use aixion_control_tower.Prelude.Exec.{
  Result, ok, err, conflict, Exec, pure, modify, gets, when, ◌>>=◌, ◌>>◌,
}
use aixion_control_tower.AgentRun.Models.{
  Instant, AgentRunStatus, AgentRunStepStatus, AgentRunStep, AgentRunEventType, StatusValue,
  run_status_eq, step_status_eq,
}
use aixion_control_tower.AgentRun.StateMachine.Runs.{terminal_run_statuses}
use aixion_control_tower.AgentRun.StateMachine.Steps.{terminal_step_statuses}
use aixion_control_tower.AgentRun.StateMachine.Derive.{derive_run_status}
use aixion_control_tower.AgentRun.Verifier.{reason_or}
use aixion_control_tower.AgentRun.Supervisor.State.{
  Mission, run_steps, append_event, write_run, write_step, move_step, move_run,
}
use aixion_control_tower.AgentRun.Supervisor.Leases.{current_step}

-- The OPERATOR_ACTION event of a change of the run.
abbrev pub operator_event : AgentRunStatus → String → String → Mission → Mission
operator_event previous reason actor m =
    append_event AgentRunEventType.operator_action none (some (StatusValue.of_run previous))
      (some (StatusValue.of_run m.run.status)) reason actor none m

unfoldable pub pause_agent_run : Instant → String → String → Exec Mission (Unit {0})
pause_agent_run now actor reason m =
    if contains m.run.status terminal_run_statuses
    then (err conflict, m)
    else (do
      modify (λ m. write_run (record (m.run) { pause_requested = true }) m)
      previous ← gets (λ m. m.run.status)
      when (previous != AgentRunStatus.paused) (do
        move_run now AgentRunStatus.paused reason
        modify (operator_event previous reason actor)))
        m

-- The statuses from which a step may be made ready again.
abbrev pub waiting_statuses : List AgentRunStepStatus
waiting_statuses =
    AgentRunStepStatus.paused ∷ AgentRunStepStatus.needs_human ∷ AgentRunStepStatus.retry_wait ∷ []

abbrev pub resume_step : Instant → String → String → Option AgentRunStep → Exec Mission (Unit {0})
resume_step now actor reason none = pure tt
resume_step now actor reason (some step) = when (contains step.status waiting_statuses) (do
  ready ← move_step now AgentRunStepStatus.ready (reason_or reason "Operator resumed step.") step
  modify (write_step (record ready { next_retry_at = none }))
  modify (
      append_event AgentRunEventType.step_ready (some ready)
        (some (StatusValue.of_step step.status)) (some (StatusValue.of_step ready.status)) reason
        actor none))

abbrev pub resumable_statuses : List AgentRunStatus
resumable_statuses =
    AgentRunStatus.paused ∷ AgentRunStatus.needs_human ∷ AgentRunStatus.retry_wait ∷ []

unfoldable pub resume_agent_run : Instant → String → String → Exec Mission (Unit {0})
resume_agent_run now actor reason m =
    if not (contains m.run.status resumable_statuses)
    then (err conflict, m)
    else (do
      modify (λ m. write_run (record (m.run) { pause_requested = false }) m)
      step ← gets current_step
      resume_step now actor reason step
      previous ← gets (λ m. m.run.status)
      move_run now AgentRunStatus.scheduled reason
      modify (operator_event previous reason actor))
        m

-- One round of the loop of `cancel_agent_run`.
abbrev pub cancel_step : Instant → String → String → AgentRunStep → Exec Mission (Unit {0})
cancel_step now actor reason step = when (not (contains step.status terminal_step_statuses)) (do
  gone ← move_step now AgentRunStepStatus.cancelled (reason_or reason "Run cancelled.") step
  modify (
      append_event AgentRunEventType.step_cancelled (some gone)
        (some (StatusValue.of_step step.status)) (some (StatusValue.of_step gone.status)) reason
        actor none))

unfoldable pub cancel_steps :
    Instant → String → String → List AgentRunStep → Exec Mission (Unit {0})
cancel_steps now actor reason [] = pure tt
cancel_steps now actor reason (step ∷ rest) =
    cancel_step now actor reason step >> cancel_steps now actor reason rest

-- The body of `cancel_agent_run` after its two early exits.
unfoldable pub cancel_open_run : Instant → String → String → Exec Mission (Unit {0})
cancel_open_run now actor reason = do
  modify (λ m. write_run (record (m.run) { cancel_requested = true }) m)
  steps ← gets (λ m. run_steps m.run.id m.steps)
  cancel_steps now actor reason steps
  previous ← gets (λ m. m.run.status)
  move_run now AgentRunStatus.cancelled reason
  modify (operator_event previous reason actor)

unfoldable pub cancel_agent_run : Instant → String → String → Exec Mission (Unit {0})
unfolding cancel_open_run cancel_steps
cancel_agent_run now actor reason m =
    if m.run.status == AgentRunStatus.cancelled
    then (ok tt, m)
    else if contains m.run.status terminal_run_statuses
    then (err conflict, m)
    else cancel_open_run now actor reason m

abbrev pub retryable_statuses : List AgentRunStepStatus
retryable_statuses =
    AgentRunStepStatus.retry_wait ∷ AgentRunStepStatus.needs_human ∷ AgentRunStepStatus.failed ∷ []

abbrev pub rescheduled_statuses : List AgentRunStatus
rescheduled_statuses = AgentRunStatus.needs_human ∷ AgentRunStatus.retry_wait ∷ []

-- A FAILED step counts as NEEDS_HUMAN from here on.
abbrev pub reopen_step : AgentRunStep → AgentRunStep
reopen_step step =
    if step.status == AgentRunStepStatus.failed
    then record step { status = AgentRunStepStatus.needs_human }
    else step

-- The body of `retry_agent_run_step` after its guards.
unfoldable pub grant_retry : Instant → String → String → AgentRunStep → Exec Mission AgentRunStep
grant_retry now actor reason reopened = do
  ready ←
      move_step now AgentRunStepStatus.ready (reason_or reason "Operator approved retry.") reopened
  let again = record ready { next_retry_at = none }
  modify (write_step again)
  modify (λ m.
      write_run
        (record (m.run) {
          current_step_id = some reopened.id;
          current_step_index = reopened.sequence;
          pause_requested = false;
        })
        m)
  status ← gets (λ m. m.run.status)
  when (contains status rescheduled_statuses) (move_run now AgentRunStatus.scheduled reason)
  modify (
      append_event AgentRunEventType.operator_action (some again)
        (some (StatusValue.of_step reopened.status)) (some (StatusValue.of_step again.status))
        reason actor none)
  pure again

unfoldable pub retry_agent_run_step :
    Instant → String → String → AgentRunStep → Exec Mission AgentRunStep
unfolding grant_retry
retry_agent_run_step now actor reason step m =
    if step.run_id != m.run.id
    then (err conflict, m)
    else if not (contains step.status retryable_statuses)
    then (err conflict, m)
    else if leb step.max_attempts step.attempt_count
    then (err conflict, m)
    else grant_retry now actor reason (reopen_step step) m

-- `recompute_run_status`: where the table forbids the move, the status is written all the same.
abbrev pub settle : AgentRunStatus → Instant → Result (Unit {0}) × Mission → Mission
settle derived now (ok _, m) = m
settle derived now (err e, m) = write_run (record (m.run) { status = derived; updated_at = now }) m

unfoldable pub recompute_run_status : Instant → Mission → Mission
unfolding derive_run_status
recompute_run_status now m =
    let derived =
      derive_run_status (run_steps m.run.id m.steps) m.run.pause_requested m.run.cancel_requested in
    if derived == m.run.status then m else settle derived now (move_run now derived "" m)
