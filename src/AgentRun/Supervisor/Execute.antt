-- ===== src/AgentRun/Supervisor/Execute.antt =====
-- `execute_next_step` of agent_run_supervisor.py. The step executor is a parameter: it may change
-- the store (other calls may run while it works), and it returns a result or raises. The clock is
-- read once before the executor and once after it.
use aixion_control_tower.Prelude.{
  ℕ, Bool, true, false, ◌||◌, Option, none, some, [], ◌∷◌, String, ◌==◌, contains, if◌then◌else◌,
}
use aixion_control_tower.Prelude.Exec.{
  ok, err, conflict, Exec, pure, raise, modify, gets, when, ◌>>=◌, ◌>>◌,
}
use aixion_control_tower.Prelude.Dict.{get}
use aixion_control_tower.AgentRun.Models.{
  Instant, Evidence, AgentRunStatus, AgentRunStepStatus, AgentRunStep, AgentRunEventType,
  VerificationDecision, AgentRunStepExecutionResult, StatusValue, run_status_eq, step_status_eq,
}
use aixion_control_tower.AgentRun.Faults.{
  AgentRunFaultConfig, consume_fault, fault_reason, fault_text, kind_value,
}
use aixion_control_tower.AgentRun.Verifier.{classify_execution_result}
use aixion_control_tower.AgentRun.StateMachine.Runs.{terminal_run_statuses}
use aixion_control_tower.AgentRun.Supervisor.State.{
  Mission, step_keyed, append_event, audit, write_run, write_step, move_step, move_run,
}
use aixion_control_tower.AgentRun.Supervisor.Leases.{acquire_run_lease, release_run_lease}
use aixion_control_tower.AgentRun.Supervisor.Select.{ready_step}
use aixion_control_tower.AgentRun.Supervisor.Apply.{run_event, apply_execution_result}
use aixion_control_tower.AgentRun.Supervisor.Control.{cancel_agent_run}

-- How a call of the executor ends: `raised` has the exception's text and its type's name.
pub data Outcome : Type 0 where
  returned : AgentRunStepExecutionResult → Outcome
  raised : String → String → Outcome

abbrev pub StepExecutor : Type 0
StepExecutor = AgentRunStep → ℕ → Mission → Outcome × Mission

-- What the code takes from elsewhere: the hash of the evidence, a fresh lease token, the two readings of the clock, and the executor.
pub record Environment : Type 0 where
  pub evidence_hash : Evidence → String
  pub fresh_token : String
  pub before : Instant
  pub after : Instant
  pub executor : StepExecutor

-- The refusals at the head of `execute_next_step`.
abbrev pub refuses : Mission → Bool
refuses m =
    contains m.run.status terminal_run_statuses
    || (m.run.pause_requested || (m.run.status == AgentRunStatus.paused))

module _ (env : Environment) where
  -- `_classify_injected_fault`
  abbrev pub fault_result : AgentRunFaultConfig → AgentRunStepExecutionResult
  fault_result fault =
      classify_execution_result false (fault_reason fault)
        (("fault_kind", kind_value fault.fault_kind) ∷ []) false

  abbrev pub outcome_result : Outcome → AgentRunStepExecutionResult
  outcome_result (returned result) = result
  outcome_result (raised reason kind) =
      classify_execution_result false reason (("exception_type", kind) ∷ []) false

  abbrev pub run_executor :
      String
      → AgentRunStep
      → ℕ
      → Option AgentRunFaultConfig
      → Exec Mission AgentRunStepExecutionResult
  run_executor worker_id step timeout (some fault) m = (
    ok (fault_result fault),
    append_event AgentRunEventType.fault_injected (some step) none none (fault_text fault) worker_id
        none m,
  )
  run_executor worker_id step timeout none m =
      let (outcome, m') = env.executor step timeout m in (ok (outcome_result outcome), m')

  -- The `try` block: an injected fault takes the place of the executor.
  abbrev pub attempt : String → AgentRunStep → ℕ → Exec Mission AgentRunStepExecutionResult
  attempt worker_id step timeout m =
      let (fault, faults) = consume_fault m.run.id step.step_type m.faults in
      run_executor worker_id step timeout fault (record m { faults = faults })

  -- The step object as the executor left it in the store.
  abbrev pub reread : AgentRunStep → Mission → AgentRunStep
  reread step m = elim (get step.id m.steps) [ none ↦ step | some s ↦ s ]

  -- The writes before the `try` block: the step starts under the run's lease.
  abbrev pub start_step : String → String → AgentRunStep → Exec Mission AgentRunStep
  start_step worker_id lease_token step = do
    running ← move_step env.before AgentRunStepStatus.running "" step
    expiry ← gets (λ m. m.run.lease_expires_at)
    let leased = record running {
      lease_owner = some worker_id;
      lease_token = some lease_token;
      lease_expires_at = expiry;
      heartbeat_at = some env.before;
    }
    modify (write_step leased)
    modify (λ m.
        write_run
          (record (m.run) { current_step_id = some step.id; current_step_index = step.sequence }) m)
    previous ← gets (λ m. m.run.status)
    when (contains previous (AgentRunStatus.scheduled ∷ AgentRunStatus.retry_wait ∷ []))
        (do move_run env.before AgentRunStatus.running ""; modify (run_event previous worker_id))
    modify (
        append_event AgentRunEventType.step_started (some leased)
          (some (StatusValue.of_step step.status)) (some (StatusValue.of_step leased.status)) ""
          worker_id none)
    pure leased

  abbrev pub drop_step_lease : AgentRunStep → AgentRunStep
  drop_step_lease step = record step {
    lease_owner = none;
    lease_token = none;
    lease_expires_at = none;
  }

  -- The writes after the result is applied.
  abbrev pub finish_step : String → AgentRunStep → Mission → Mission
  finish_step worker_id step m =
      let cleared = write_step (drop_step_lease (reread step m)) m in
      audit "agent_run.step_completed" worker_id (
        write_run
          (record (cleared.run) {
            lease_owner = none;
            lease_token = none;
            lease_expires_at = none;
            updated_at = env.after;
          })
          cleared)

  abbrev pub run_step :
      String → String → ℕ → AgentRunStep → Exec Mission AgentRunStepExecutionResult
  run_step worker_id lease_token timeout step = do
    started ← start_step worker_id lease_token step
    result ← attempt worker_id started timeout
    after ← gets (reread started)
    apply_execution_result env.evidence_hash env.after worker_id result after
    modify (finish_step worker_id started)
    pure result

  abbrev pub backoff_result : AgentRunStepExecutionResult
  backoff_result = record {
    success = false;
    decision = VerificationDecision.retry_transient;
    reason = "No step is ready because retry backoff has not elapsed.";
    evidence = [];
    output_reference = none;
  }

  -- With no step ready the lease goes back.
  abbrev pub deliver :
      String → String → ℕ → Option AgentRunStep → Exec Mission AgentRunStepExecutionResult
  deliver worker_id lease_token timeout none = do
    modify (release_run_lease worker_id (some lease_token) env.before)
    status ← gets (λ m. m.run.status)
    if status == AgentRunStatus.retry_wait then pure backoff_result else raise conflict
  deliver worker_id lease_token timeout (some step) =
      if step.status == AgentRunStepStatus.succeeded
      then (do
        modify (
            append_event AgentRunEventType.duplicate_delivery_ignored (some step) none none ""
              worker_id none)
        modify (release_run_lease worker_id (some lease_token) env.before)
        pure (record {
          success = true;
          decision = VerificationDecision.pass;
          reason = "Duplicate delivery ignored; verified step result already exists.";
          evidence = step.evidence;
          output_reference = step.output_reference;
        }))
      else run_step worker_id lease_token timeout step

  unfoldable pub execute_next_step : String → ℕ → ℕ → Exec Mission AgentRunStepExecutionResult
  execute_next_step worker_id lease_seconds timeout m =
      if refuses m
      then (err conflict, m)
      else if m.run.cancel_requested
      then (cancel_agent_run env.before worker_id "Cancellation was already requested."
            >> raise conflict)
          m
      else (do
        lease_token ← acquire_run_lease worker_id lease_seconds env.before env.fresh_token
        step ← ready_step env.before
        deliver worker_id lease_token timeout step)
          m
