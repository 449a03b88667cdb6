-- ===== src/AgentRun/Supervisor/Recover.antt =====
-- `recover_stale_leases` of agent_run_supervisor.py, over all the runs of the store.
use aixion_control_tower.Prelude.{
  Bool, true, false, Option, none, some, [], ◌∷◌, String, ◌==◌, contains, ltb, if◌then◌else◌,
}
use aixion_control_tower.Prelude.Exec.{ok, Exec, pure, modify, gets, when, ◌>>=◌, ◌>>◌}
use aixion_control_tower.AgentRun.Models.{
  Instant, AgentRunStatus, AgentRunStepStatus, AgentRun, AgentRunStep, AgentRunEventType,
  StatusValue, run_status_eq, step_status_eq,
}
use aixion_control_tower.AgentRun.Supervisor.State.{
  Mission, append_event, write_run, write_step, move_step, move_run,
}
use aixion_control_tower.AgentRun.Supervisor.Leases.{current_step}

-- `run.lease_expires_at is None or run.lease_expires_at > now` is the loop's `continue`.
abbrev pub is_stale : AgentRun → Instant → Bool
is_stale run now = elim run.lease_expires_at [
  | none ↦ false
  | some t ↦ if ltb now t then false else true
]

abbrev pub clear_run_lease : AgentRun → AgentRun
clear_run_lease run = record run {
  lease_owner = none;
  lease_token = none;
  lease_expires_at = none;
  heartbeat_at = none;
}

abbrev pub recovered_event : AgentRunStep → AgentRunStep → String → Mission → Mission
recovered_event before after actor =
    append_event AgentRunEventType.stale_lease_recovered (some after)
      (some (StatusValue.of_step before.status)) (some (StatusValue.of_step after.status)) "" actor
      none

abbrev pub requeue_step : Instant → String → AgentRunStep → Exec Mission (Unit {0})
requeue_step now actor step = do
  waiting ← move_step now AgentRunStepStatus.retry_wait "Worker lease expired." step
  let due = record waiting { next_retry_at = some now }
  modify (write_step due)
  status ← gets (λ m. m.run.status)
  when (status == AgentRunStatus.running)
      (move_run now AgentRunStatus.retry_wait "Worker lease expired.")
  modify (recovered_event step due actor)

abbrev pub escalate_step : Instant → String → AgentRunStep → Exec Mission (Unit {0})
escalate_step now actor step = do
  stopped ←
      move_step now AgentRunStepStatus.needs_human
        "Worker lease expired and retry budget is exhausted." step
  status ← gets (λ m. m.run.status)
  when (contains status (AgentRunStatus.running ∷ AgentRunStatus.retry_wait ∷ []))
      (move_run now AgentRunStatus.needs_human stopped.reason)
  modify (recovered_event step stopped actor)

abbrev pub recover_step : Instant → String → Option AgentRunStep → Exec Mission (Unit {0})
recover_step now actor none = pure tt
recover_step now actor (some step) = when (step.status == AgentRunStepStatus.running) (do
  let freed = record step { lease_owner = none; lease_token = none; lease_expires_at = none }
  modify (write_step freed)
  if ltb step.attempt_count step.max_attempts
      then requeue_step now actor freed
      else escalate_step now actor freed)

-- One round of the loop; the result says whether the run counts as recovered.
unfoldable pub recover_run : Instant → String → Exec Mission Bool
recover_run now actor m =
    if is_stale m.run now
    then (do
      modify (λ m. write_run (clear_run_lease m.run) m)
      step ← gets current_step
      recover_step now actor step
      pure true)
        m
    else (ok false, m)
