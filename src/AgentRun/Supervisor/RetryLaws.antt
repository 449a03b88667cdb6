-- ===== src/AgentRun/Supervisor/RetryLaws.antt =====
-- `retry_agent_run_step` of agent_run_supervisor.py.
use aixion_control_tower.Prelude.{
  ◌<◌, ◌≡◌, ◌⊎◌, refl, true, false, none, some, String, arith, eq_iff, string_eq, contains,
  Bool-cases, inl, inr, ◌∙◌,
}
use aixion_control_tower.Prelude.Exec.{Result, ok, err, conflict}
use aixion_control_tower.Prelude.Dict.{get, put, get-put_self}
use aixion_control_tower.AgentRun.Models.{
  Instant, AgentRunStatus, AgentRunStepStatus, AgentRun, AgentRunStep, run_status_eq,
  step_status_eq,
}
use aixion_control_tower.AgentRun.StateMachine.Steps.{enter_step}
use aixion_control_tower.AgentRun.Verifier.{reason_or}
use aixion_control_tower.AgentRun.Supervisor.State.{Mission, step_keyed, write_run, write_step}
use aixion_control_tower.AgentRun.Supervisor.Moves.{
  CanMoveStep, CanMoveRun, move_step-legal, move_run-legal, enter_step_lem, enter_run_lem,
}
use aixion_control_tower.AgentRun.Supervisor.Control.{
  retryable_statuses, rescheduled_statuses, retry_agent_run_step, reopen_step, grant_retry,
}

-- The conditions of `retry_agent_run_step`: the step is of this run, waits for an operator and has
-- an attempt left.
abbrev pub MayRetry : AgentRunStep → Mission → Type 0
MayRetry step m =
    (step.run_id ≡ m.run.id)
    × (contains step.status retryable_statuses ≡ true)
    × (step.attempt_count < step.max_attempts)

-- The step is READY again in the store and the run's current one, with its attempts as they were.
pub record Retried (step : AgentRunStep) (outcome : Result AgentRunStep × Mission) : Type 0 where
  pub after : AgentRunStep
  pub returns : outcome.0 ≡ ok after
  pub found : get step.id outcome.1.steps ≡ some after
  pub ready : after.status ≡ AgentRunStepStatus.ready
  pub attempts : after.attempt_count ≡ step.attempt_count
  pub current : outcome.1.run.current_step_id ≡ some step.id
  pub unpaused : outcome.1.run.pause_requested ≡ false

can_reopen :
    (step : AgentRunStep)
    → contains step.status retryable_statuses ≡ true
    → CanMoveStep (reopen_step step).status AgentRunStepStatus.ready
can_reopen step h = ground arith

can_reschedule :
    (s : AgentRunStatus)
    → contains s rescheduled_statuses ≡ true
    → CanMoveRun s AgentRunStatus.scheduled
can_reschedule s h = ground arith

reopen_id : (step : AgentRunStep) → (reopen_step step).id ≡ step.id
reopen_id step = ground arith

reopen_attempts : (step : AgentRunStep) → (reopen_step step).attempt_count ≡ step.attempt_count
reopen_attempts step = ground arith

grant_retry-Retried :
    (now : Instant) (actor reason : String) (step : AgentRunStep) (m : Mission)
    → CanMoveStep step.status AgentRunStepStatus.ready
    → Retried step (grant_retry now actor reason step m)
unfolding grant_retry
grant_retry-Retried now actor reason step m can =
    let why = reason_or reason "Operator approved retry." in
    let ready = enter_step now AgentRunStepStatus.ready why step in
    let again : AgentRunStep = record ready { next_retry_at = none } in
    let e = enter_step_lem now AgentRunStepStatus.ready why step in
    let run : AgentRun = record (m.run) {
      current_step_id = some step.id;
      current_step_index = step.sequence;
      pause_requested = false;
    } in
    let m' = write_run run (write_step again (write_step ready m)) in
    let r = enter_run_lem now AgentRunStatus.scheduled reason run in
    elim (Bool-cases (contains m.run.status rescheduled_statuses)) [
      | inl waits ↦
          rw
            (
              move_step-legal now AgentRunStepStatus.ready why step m can,
              waits,
              move_run-legal now AgentRunStatus.scheduled reason m'
                  (can_reschedule m.run.status waits),
            )
            (record {
              after = again;
              returns = refl;
              found = get-put_self again step.id (put ready m.steps) e.id;
              ready = e.status;
              attempts = e.attempts refl;
              current = r.current;
              unpaused = r.paused;
            })
      | inr other ↦
          rw (move_step-legal now AgentRunStepStatus.ready why step m can, other)
            (record {
              after = again;
              returns = refl;
              found = get-put_self again step.id (put ready m.steps) e.id;
              ready = e.status;
              attempts = e.attempts refl;
              current = refl;
              unpaused = refl;
            })
    ]

reopened-Retried :
    {step : AgentRunStep} {o : Result AgentRunStep × Mission}
    → Retried (reopen_step step) o
    → Retried step o
reopened-Retried {step} h = record {
  after = h.after;
  returns = h.returns;
  found = rw⁻¹ (reopen_id step) h.found;
  ready = h.ready;
  attempts = h.attempts ∙ reopen_attempts step;
  current = rw⁻¹ (reopen_id step) h.current;
  unpaused = h.unpaused;
}

retry-cases :
    (now : Instant) (actor reason : String) (step : AgentRunStep) (m : Mission)
    → (MayRetry step m
        × (retry_agent_run_step now actor reason step m
            ≡ grant_retry now actor reason (reopen_step step) m))
      ⊎ (¬ MayRetry step m × (retry_agent_run_step now actor reason step m ≡ (err conflict, m)))
unfolding retry_agent_run_step
retry-cases now actor reason step m = ground (arith, eq_iff step.run_id m.run.id)

-- An operator's retry either has its conditions (the step is the run's, is in RETRY_WAIT,
-- NEEDS_HUMAN or FAILED, and has an attempt left) and then succeeds, with the step READY and the
-- run's current one; or it lacks one, raises AgentRunConflict and changes nothing.
pub retry_agent_run_step_lem :
    (now : Instant) (actor reason : String) (step : AgentRunStep) (m : Mission)
    → let outcome = retry_agent_run_step now actor reason step m in
      (MayRetry step m × Retried step outcome) ⊎ (¬ MayRetry step m × (outcome ≡ (err conflict, m)))
retry_agent_run_step_lem now actor reason step m = elim (retry-cases now actor reason step m) [
  | inl (may, e) ↦ inl (
    may,
    rw e (
        reopened-Retried
          (grant_retry-Retried now actor reason (reopen_step step) m (can_reopen step may.1))),
  )
  | inr (not_may, e) ↦ inr (not_may, e)
]
