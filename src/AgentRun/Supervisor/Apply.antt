-- ===== src/AgentRun/Supervisor/Apply.antt =====
-- `_apply_execution_result` of agent_run_supervisor.py. `evidence_hash` stands for the SHA-256 of
-- the evidence, and a call reads the clock once.
use aixion_control_tower.Prelude.{
  ℕ, ◌+◌, ◌*◌, ◌^◌, min, max, Option, none, some, String, ltb, if◌then◌else◌,
}
use aixion_control_tower.Prelude.Text.{concat}
use aixion_control_tower.Prelude.Exec.{Exec, modify, gets, ◌>>=◌, ◌>>◌}
use aixion_control_tower.AgentRun.Models.{
  Instant, second, Evidence, AgentRunStatus, AgentRunStepStatus, AgentRunStep, AgentRunEventType,
  VerificationDecision, AgentRunStepExecutionResult, StatusValue,
}
use aixion_control_tower.AgentRun.Supervisor.State.{
  Mission, append_event, write_run, write_step, move_step, move_run,
}
use aixion_control_tower.AgentRun.Supervisor.Select.{next_pending_step}

-- The writes before the decision is looked at.
abbrev pub record_result :
    (Evidence → String) → Instant → AgentRunStepExecutionResult → AgentRunStep → AgentRunStep
record_result evidence_hash now result step = record step {
  decision = some result.decision;
  reason = result.reason;
  evidence = result.evidence;
  evidence_hash = some (evidence_hash result.evidence);
  output_reference = result.output_reference;
  updated_at = now;
}

abbrev pub step_event :
    AgentRunEventType
    → AgentRunStepStatus
    → AgentRunStep
    → String
    → String
    → Option String
    → Mission
    → Mission
step_event kind previous step reason actor output_hash =
    append_event kind (some step) (some (StatusValue.of_step previous))
      (some (StatusValue.of_step step.status)) reason actor output_hash

abbrev pub run_event : AgentRunStatus → String → Mission → Mission
run_event previous actor m =
    append_event AgentRunEventType.run_state_changed none (some (StatusValue.of_run previous))
      (some (StatusValue.of_run m.run.status)) "" actor none m

-- The end of the PASS branch: the run succeeds if no step is pending, else it goes on.
abbrev pub after_pass : Instant → String → Option AgentRunStep → Exec Mission (Unit {0})
after_pass now actor none = do
  previous ← gets (λ m. m.run.status)
  move_run now AgentRunStatus.succeeded ""
  modify (run_event previous actor)
after_pass now actor (some next) =
    modify (λ m. write_run (record (m.run) { status = AgentRunStatus.running; updated_at = now }) m)

abbrev pub apply_pass :
    Instant → String → AgentRunStepExecutionResult → AgentRunStep → Exec Mission (Unit {0})
apply_pass now actor result step = do
  done ← move_step now AgentRunStepStatus.succeeded result.reason step
  modify (step_event AgentRunEventType.step_succeeded step.status done "" actor done.evidence_hash)
  next ← next_pending_step now done
  after_pass now actor next

-- `min(300, 2 ** max(1, step.attempt_count))`
abbrev pub delay_seconds : ℕ → ℕ
delay_seconds attempts = min 300 (2 ^ max 1 attempts)

abbrev pub apply_retry :
    Instant → String → AgentRunStepExecutionResult → AgentRunStep → Exec Mission (Unit {0})
apply_retry now actor result step =
    if ltb step.attempt_count step.max_attempts
    then (do
      waiting ← move_step now AgentRunStepStatus.retry_wait result.reason step
      let timed = record waiting {
        next_retry_at = some (now + delay_seconds step.attempt_count * second);
      }
      modify (write_step timed)
      move_run now AgentRunStatus.retry_wait result.reason
      modify (
          step_event AgentRunEventType.step_retry_scheduled step.status timed result.reason actor
            timed.evidence_hash))
    else (do
      stopped ←
          move_step now AgentRunStepStatus.needs_human
            (concat "Retry budget exhausted. " result.reason) step
      move_run now AgentRunStatus.needs_human result.reason
      modify (
          step_event AgentRunEventType.step_needs_human step.status stopped result.reason actor
            none))

-- The three branches that stop the run: the step and the run move to the same kind of status.
abbrev pub apply_stop :
    AgentRunStepStatus
    → AgentRunStatus
    → AgentRunEventType
    → Instant
    → String
    → AgentRunStepExecutionResult
    → AgentRunStep
    → Exec Mission (Unit {0})
apply_stop step_status run_status kind now actor result step = do
  stopped ← move_step now step_status result.reason step
  move_run now run_status result.reason
  modify (step_event kind step.status stopped result.reason actor none)

abbrev pub apply_decision :
    VerificationDecision
    → Instant
    → String
    → AgentRunStepExecutionResult
    → AgentRunStep
    → Exec Mission (Unit {0})
apply_decision VerificationDecision.pass = apply_pass
apply_decision VerificationDecision.retry_transient = apply_retry
apply_decision VerificationDecision.needs_revision =
    apply_stop AgentRunStepStatus.needs_human AgentRunStatus.needs_human
      AgentRunEventType.step_needs_human
apply_decision VerificationDecision.needs_human =
    apply_stop AgentRunStepStatus.needs_human AgentRunStatus.needs_human
      AgentRunEventType.step_needs_human
apply_decision VerificationDecision.block_policy =
    apply_stop AgentRunStepStatus.blocked AgentRunStatus.blocked AgentRunEventType.step_blocked
apply_decision VerificationDecision.fail_permanent =
    apply_stop AgentRunStepStatus.failed AgentRunStatus.failed AgentRunEventType.step_failed

unfoldable pub apply_execution_result :
    (Evidence → String)
    → Instant
    → String
    → AgentRunStepExecutionResult
    → AgentRunStep
    → Exec Mission (Unit {0})
apply_execution_result evidence_hash now actor result step =
    let noted = record_result evidence_hash now result step in
    do modify (write_step noted); apply_decision result.decision now actor result noted
