-- ===== src/AgentRun/Supervisor/RecoverLaws.antt =====
-- `recover_stale_leases` of agent_run_supervisor.py, on a run whose worker was lost.
use aixion_control_tower.Prelude.{
  ◌≡◌, refl, true, none, some, [], ◌∷◌, String, arith, ◌==◌, string_eq, ltb, contains,
  if◌then◌else◌, Bool-cases, inl, inr,
}
use aixion_control_tower.Prelude.Exec.{ok}
use aixion_control_tower.Prelude.Dict.{get, put, get-put_self}
use aixion_control_tower.AgentRun.Models.{
  Instant, AgentRunStatus, AgentRunStepStatus, AgentRun, AgentRunStep, run_status_eq,
  step_status_eq,
}
use aixion_control_tower.AgentRun.StateMachine.Runs.{enter_run}
use aixion_control_tower.AgentRun.StateMachine.Steps.{enter_step}
use aixion_control_tower.AgentRun.Supervisor.State.{Mission, step_keyed, write_run, write_step}
use aixion_control_tower.AgentRun.Supervisor.Moves.{
  move_step-legal, move_run-legal, enter_step_lem, enter_run_lem,
}
use aixion_control_tower.AgentRun.Supervisor.Leases.{current_step}
use aixion_control_tower.AgentRun.Supervisor.Recover.{
  is_stale, clear_run_lease, requeue_step, escalate_step, recover_run,
}

-- The step found at work has gone to `step_status`, without a lease, and the run to `run_status`,
-- which no worker holds.
pub record Recovered (step : AgentRunStep) (step_status : AgentRunStepStatus)
    (run_status : AgentRunStatus) (m : Mission) : Type 0 where
  pub after : AgentRunStep
  pub found : get step.id m.steps ≡ some after
  pub step_status_is : after.status ≡ step_status
  pub step_unowned : after.lease_owner ≡ none
  pub attempts : after.attempt_count ≡ step.attempt_count
  pub run_status_is : m.run.status ≡ run_status
  pub run_unowned : m.run.lease_owner ≡ none

keeps_no_owner :
    (now : Instant) (target : AgentRunStepStatus) (reason : String) (step : AgentRunStep)
    → step.lease_owner ≡ none
    → (enter_step now target reason step).lease_owner ≡ none
unfolding enter_step
keeps_no_owner now target reason step h = ground arith

keeps_no_run_owner :
    (now : Instant) (target : AgentRunStatus) (reason : String) (run : AgentRun)
    → run.lease_owner ≡ none
    → (enter_run now target reason run).lease_owner ≡ none
unfolding enter_run
keeps_no_run_owner now target reason run h = ground arith

module _ (now : Instant) (actor : String) (step : AgentRunStep) (m : Mission)
    (at_work : step.status ≡ AgentRunStepStatus.running) (free : step.lease_owner ≡ none)
    (running : m.run.status ≡ AgentRunStatus.running) (run_free : m.run.lease_owner ≡ none) where
  requeue_step-Recovered :
      ((requeue_step now actor step m).0 ≡ ok tt)
      × Recovered step AgentRunStepStatus.retry_wait AgentRunStatus.retry_wait
          (requeue_step now actor step m).1
  requeue_step-Recovered =
      let why : String = "Worker lease expired." in
      let gone = enter_step now AgentRunStepStatus.retry_wait why step in
      let due : AgentRunStep = record gone { next_retry_at = some now } in
      let e = enter_step_lem now AgentRunStepStatus.retry_wait why step in
      let r = enter_run_lem now AgentRunStatus.retry_wait why m.run in
      let at_run : (m.run.status == AgentRunStatus.running) ≡ true = rw running refl in
      rw
        (
          move_step-legal now AgentRunStepStatus.retry_wait why step m (rw at_work),
          at_run,
          move_run-legal now AgentRunStatus.retry_wait why (write_step due (write_step gone m))
              (rw running),
        )
        (
          refl,
          record {
            after = due;
            found = get-put_self due step.id (put gone m.steps) e.id;
            step_status_is = e.status;
            step_unowned = keeps_no_owner now AgentRunStepStatus.retry_wait why step free;
            attempts = e.attempts refl;
            run_status_is = r.status;
            run_unowned = keeps_no_run_owner now AgentRunStatus.retry_wait why m.run run_free;
          },
        )

  escalate_step-Recovered :
      ((escalate_step now actor step m).0 ≡ ok tt)
      × Recovered step AgentRunStepStatus.needs_human AgentRunStatus.needs_human
          (escalate_step now actor step m).1
  escalate_step-Recovered =
      let why : String = "Worker lease expired and retry budget is exhausted." in
      let gone = enter_step now AgentRunStepStatus.needs_human why step in
      let e = enter_step_lem now AgentRunStepStatus.needs_human why step in
      let r = enter_run_lem now AgentRunStatus.needs_human gone.reason m.run in
      let at_run : contains m.run.status (AgentRunStatus.running ∷ AgentRunStatus.retry_wait ∷ [])
          ≡ true =
        rw running refl in
      rw
        (
          move_step-legal now AgentRunStepStatus.needs_human why step m (rw at_work),
          at_run,
          move_run-legal now AgentRunStatus.needs_human gone.reason (write_step gone m)
              (rw running),
        )
        (
          refl,
          record {
            after = gone;
            found = get-put_self gone step.id m.steps e.id;
            step_status_is = e.status;
            step_unowned = keeps_no_owner now AgentRunStepStatus.needs_human why step free;
            attempts = e.attempts refl;
            run_status_is = r.status;
            run_unowned =
                keeps_no_run_owner now AgentRunStatus.needs_human gone.reason m.run run_free;
          },
        )

-- A step without its lease is the same step to `Recovered`.
same :
    {step : AgentRunStep} {s : AgentRunStepStatus} {r : AgentRunStatus} {m : Mission}
    → Recovered
        (record step { lease_owner = none; lease_token = none; lease_expires_at = none })
        s
        r
        m
    → Recovered step s r m
same h = record {
  after = h.after;
  found = h.found;
  step_status_is = h.step_status_is;
  step_unowned = h.step_unowned;
  attempts = h.attempts;
  run_status_is = h.run_status_is;
  run_unowned = h.run_unowned;
}

-- A RUNNING run whose lease has expired and whose current step is RUNNING is never taken for
-- complete: the step waits for a retry when an attempt is left and goes to a human when none is, the
-- run follows it, neither keeps its owner, and no attempt is added or forgotten.
pub recover_run-Recovered :
    (now : Instant) (actor : String) (step : AgentRunStep) (m : Mission)
    → is_stale m.run now ≡ true
    → current_step m ≡ some step
    → step.status ≡ AgentRunStepStatus.running
    → m.run.status ≡ AgentRunStatus.running
    → let left = ltb step.attempt_count step.max_attempts in
      ((recover_run now actor m).0 ≡ ok true)
      × Recovered step
          (if left then AgentRunStepStatus.retry_wait else AgentRunStepStatus.needs_human)
          (if left then AgentRunStatus.retry_wait else AgentRunStatus.needs_human)
          (recover_run now actor m).1
unfolding recover_run
recover_run-Recovered now actor step m stale current at_work running =
    let freed : AgentRunStep = record step {
      lease_owner = none;
      lease_token = none;
      lease_expires_at = none;
    } in
    let m' = write_step freed (write_run (clear_run_lease m.run) m) in
    let at_step : (step.status == AgentRunStepStatus.running) ≡ true = rw at_work refl in
    elim (Bool-cases (ltb step.attempt_count step.max_attempts)) [
      | inl left ↦
          let e = requeue_step-Recovered now actor freed m' at_work refl running refl in
          rw (stale, current, at_step, left, e.0) (refl, same e.1)
      | inr over ↦
          let e = escalate_step-Recovered now actor freed m' at_work refl running refl in
          rw (stale, current, at_step, over, e.0) (refl, same e.1)
    ]
