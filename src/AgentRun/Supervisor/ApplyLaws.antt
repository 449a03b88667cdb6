-- ===== src/AgentRun/Supervisor/ApplyLaws.antt =====
-- `_apply_execution_result` of agent_run_supervisor.py, for results that do not pass.
use aixion_control_tower.Prelude.{
  ◌+◌, ◌*◌, ◌≡◌, ◌≢◌, refl, Bool, true, false, some, String, ltb, if◌then◌else◌, sym, ◌==◌,
  Bool-cases, inl, inr,
}
use mathlib.Core.Path.{subst}
use aixion_control_tower.Prelude.Text.{concat}
use aixion_control_tower.Prelude.Exec.{Result, ok}
use aixion_control_tower.Prelude.Dict.{get, put, get-put_self}
use aixion_control_tower.AgentRun.Models.{
  Instant, second, Evidence, AgentRunStatus, AgentRunStepStatus, AgentRunStep, AgentRunEventType,
  VerificationDecision, AgentRunStepExecutionResult, step_status_eq,
}
use aixion_control_tower.AgentRun.StateMachine.Steps.{enter_step}
use aixion_control_tower.AgentRun.Supervisor.State.{Mission, step_keyed, write_step}
use aixion_control_tower.AgentRun.Supervisor.Moves.{
  CanMoveStep, CanMoveRun, move_step-legal, move_run-legal, enter_step_lem, enter_run_lem,
}
use aixion_control_tower.AgentRun.Supervisor.Apply.{
  record_result, delay_seconds, apply_retry, apply_stop, apply_decision, apply_execution_result,
}

-- How a call on `step` has ended: without an exception, with the step and the run in these statuses.
pub record Ends (step : AgentRunStep) (step_status : AgentRunStepStatus)
    (run_status : AgentRunStatus) (outcome : Result (Unit {0}) × Mission) : Type 0 where
  pub returns : outcome.0 ≡ ok tt
  pub after : AgentRunStep
  pub found : get step.id outcome.1.steps ≡ some after
  pub status : after.status ≡ step_status
  pub attempts : after.attempt_count ≡ step.attempt_count
  pub run_status_is : outcome.1.run.status ≡ run_status

stop-Ends :
    (ss : AgentRunStepStatus) (rs : AgentRunStatus) (kind : AgentRunEventType) (now : Instant)
    (actor : String) (result : AgentRunStepExecutionResult) (step : AgentRunStep) (m : Mission)
    → CanMoveStep step.status ss
    → CanMoveRun m.run.status rs
    → (ss == AgentRunStepStatus.running) ≡ false
    → Ends step ss rs (apply_stop ss rs kind now actor result step m)
stop-Ends ss rs kind now actor result step m hs hr ne =
    let stopped = enter_step now ss result.reason step in
    let entered = enter_step_lem now ss result.reason step in
    let run = enter_run_lem now rs result.reason m.run in
    rw
      (
        move_step-legal now ss result.reason step m hs,
        move_run-legal now rs result.reason (write_step stopped m) hr,
      )
      (record {
        returns = refl;
        after = stopped;
        found = get-put_self stopped step.id m.steps entered.id;
        status = entered.status;
        attempts = entered.attempts ne;
        run_status_is = run.status;
      })

-- The statuses that a decision gives to the step and to the run, beside PASS.
abbrev pub stop_step : VerificationDecision → Bool → AgentRunStepStatus
stop_step VerificationDecision.pass left = AgentRunStepStatus.succeeded
stop_step VerificationDecision.retry_transient left =
    if left then AgentRunStepStatus.retry_wait else AgentRunStepStatus.needs_human
stop_step VerificationDecision.needs_revision left = AgentRunStepStatus.needs_human
stop_step VerificationDecision.needs_human left = AgentRunStepStatus.needs_human
stop_step VerificationDecision.block_policy left = AgentRunStepStatus.blocked
stop_step VerificationDecision.fail_permanent left = AgentRunStepStatus.failed

abbrev pub stop_run : VerificationDecision → Bool → AgentRunStatus
stop_run VerificationDecision.pass left = AgentRunStatus.running
stop_run VerificationDecision.retry_transient left =
    if left then AgentRunStatus.retry_wait else AgentRunStatus.needs_human
stop_run VerificationDecision.needs_revision left = AgentRunStatus.needs_human
stop_run VerificationDecision.needs_human left = AgentRunStatus.needs_human
stop_run VerificationDecision.block_policy left = AgentRunStatus.blocked
stop_run VerificationDecision.fail_permanent left = AgentRunStatus.failed

module _ (now : Instant) (actor : String) (result : AgentRunStepExecutionResult)
    (step : AgentRunStep) (m : Mission) (is_running : step.status ≡ AgentRunStepStatus.running)
    (run_running : m.run.status ≡ AgentRunStatus.running) where
  retry-Ends_left :
      ltb step.attempt_count step.max_attempts ≡ true
      → Ends step AgentRunStepStatus.retry_wait AgentRunStatus.retry_wait
          (apply_retry now actor result step m)
  retry-Ends_left left =
      let waiting = enter_step now AgentRunStepStatus.retry_wait result.reason step in
      let timed : AgentRunStep = record waiting {
        next_retry_at = some (now + delay_seconds step.attempt_count * second);
      } in
      let entered = enter_step_lem now AgentRunStepStatus.retry_wait result.reason step in
      let run = enter_run_lem now AgentRunStatus.retry_wait result.reason m.run in
      rw
        (
          left,
          move_step-legal now AgentRunStepStatus.retry_wait result.reason step m (rw is_running),
          move_run-legal now AgentRunStatus.retry_wait result.reason
              (write_step timed (write_step waiting m)) (rw run_running),
        )
        (record {
          returns = refl;
          after = timed;
          found = get-put_self timed step.id (put waiting m.steps) entered.id;
          status = entered.status;
          attempts = entered.attempts refl;
          run_status_is = run.status;
        })

  retry-Ends_spent :
      ltb step.attempt_count step.max_attempts ≡ false
      → Ends step AgentRunStepStatus.needs_human AgentRunStatus.needs_human
          (apply_retry now actor result step m)
  retry-Ends_spent spent =
      let reason = concat "Retry budget exhausted. " result.reason in
      let stopped = enter_step now AgentRunStepStatus.needs_human reason step in
      let entered = enter_step_lem now AgentRunStepStatus.needs_human reason step in
      let run = enter_run_lem now AgentRunStatus.needs_human result.reason m.run in
      rw
        (
          spent,
          move_step-legal now AgentRunStepStatus.needs_human reason step m (rw is_running),
          move_run-legal now AgentRunStatus.needs_human result.reason (write_step stopped m)
              (rw run_running),
        )
        (record {
          returns = refl;
          after = stopped;
          found = get-put_self stopped step.id m.steps entered.id;
          status = entered.status;
          attempts = entered.attempts refl;
          run_status_is = run.status;
        })

  retry-Ends :
      Ends step
        (stop_step VerificationDecision.retry_transient (ltb step.attempt_count step.max_attempts))
        (stop_run VerificationDecision.retry_transient (ltb step.attempt_count step.max_attempts))
        (apply_retry now actor result step m)
  retry-Ends = elim (Bool-cases (ltb step.attempt_count step.max_attempts)) [
    | inl left ↦
        subst
          (λ b.
            Ends step (stop_step VerificationDecision.retry_transient b)
              (stop_run VerificationDecision.retry_transient b)
              (apply_retry now actor result step m))
          (sym left) (retry-Ends_left left)
    | inr spent ↦
        subst
          (λ b.
            Ends step (stop_step VerificationDecision.retry_transient b)
              (stop_run VerificationDecision.retry_transient b)
              (apply_retry now actor result step m))
          (sym spent) (retry-Ends_spent spent)
  ]

  decision-Ends :
      (d : VerificationDecision)
      → d ≢ VerificationDecision.pass
      → Ends step
          (stop_step d (ltb step.attempt_count step.max_attempts))
          (stop_run d (ltb step.attempt_count step.max_attempts))
          (apply_decision d now actor result step m)
  decision-Ends VerificationDecision.pass ne = absurd (ne refl)
  decision-Ends VerificationDecision.retry_transient ne = retry-Ends
  decision-Ends VerificationDecision.needs_revision ne =
      stop-Ends _ _ _ now actor result step m (rw is_running) (rw run_running) refl
  decision-Ends VerificationDecision.needs_human ne =
      stop-Ends _ _ _ now actor result step m (rw is_running) (rw run_running) refl
  decision-Ends VerificationDecision.block_policy ne =
      stop-Ends _ _ _ now actor result step m (rw is_running) (rw run_running) refl
  decision-Ends VerificationDecision.fail_permanent ne =
      stop-Ends _ _ _ now actor result step m (rw is_running) (rw run_running) refl

-- Of a step in RUNNING and a run in RUNNING, a result that does not PASS is always applied without
-- an exception: a transient failure waits for a retry while attempts are left and else needs a
-- human, a revision needs a human, a policy violation blocks and any other failure fails both the
-- step and the run. The attempt count stays.
pub apply-Ends :
    (evidence_hash : Evidence → String) (now : Instant) (actor : String)
    (result : AgentRunStepExecutionResult) (step : AgentRunStep) (m : Mission)
    → step.status ≡ AgentRunStepStatus.running
    → m.run.status ≡ AgentRunStatus.running
    → result.decision ≢ VerificationDecision.pass
    → Ends step
        (stop_step result.decision (ltb step.attempt_count step.max_attempts))
        (stop_run result.decision (ltb step.attempt_count step.max_attempts))
        (apply_execution_result evidence_hash now actor result step m)
unfolding apply_execution_result
apply-Ends evidence_hash now actor result step m hs hr ne =
    let noted = record_result evidence_hash now result step in
    let e = decision-Ends now actor result noted (write_step noted m) hs hr result.decision ne in
    record {
      returns = e.returns;
      after = e.after;
      found = e.found;
      status = e.status;
      attempts = e.attempts;
      run_status_is = e.run_status_is;
    }
