-- ===== src/AgentRun/Supervisor/Select.antt =====
-- `_ready_step` and `_next_pending_step` of agent_run_supervisor.py.
use aixion_control_tower.Prelude.{
  ℕ, Bool, false, ◌&&◌, not, Option, none, some, List, [], ◌∷◌, ◌==◌, contains, ltb, leb,
  if◌then◌else◌,
}
use aixion_control_tower.Prelude.Exec.{Exec, pure, modify, ◌>>=◌, ◌>>◌}
use aixion_control_tower.AgentRun.Models.{
  Instant, AgentRunStepStatus, AgentRunStep, AgentRunEventType, StatusValue, step_status_eq,
}
use aixion_control_tower.AgentRun.StateMachine.Derive.{passed_statuses}
use aixion_control_tower.AgentRun.Supervisor.State.{
  Mission, run_steps, append_event, write_run, move_step,
}

-- `step.next_retry_at and step.next_retry_at <= now`
abbrev pub is_due : Option Instant → Instant → Bool
is_due none now = false
is_due (some t) now = leb t now

-- The first `if` of the loop of `_ready_step`.
abbrev pub wake : Instant → AgentRunStep → Exec Mission AgentRunStep
wake now step =
    if (step.status == AgentRunStepStatus.retry_wait) && is_due step.next_retry_at now
    then (do
      woken ← move_step now AgentRunStepStatus.ready "Retry backoff elapsed." step
      modify (
          append_event AgentRunEventType.step_ready (some woken)
            (some (StatusValue.of_step step.status)) (some (StatusValue.of_step woken.status)) ""
            "system" none)
      pure woken)
    else pure step

-- The rest of one round of the loop; `later` are the rounds after it.
abbrev pub examine :
    Exec Mission (Option AgentRunStep) → AgentRunStep → Exec Mission (Option AgentRunStep)
examine later step =
    if step.status == AgentRunStepStatus.ready
    then pure (some step)
    else if not (contains step.status passed_statuses)
    then pure none
    else later

unfoldable pub ready_step_from : Instant → List AgentRunStep → Exec Mission (Option AgentRunStep)
ready_step_from now [] = pure none
ready_step_from now (step ∷ rest) =
    let later = ready_step_from now rest in wake now step >>= examine later

unfoldable pub ready_step : Instant → Exec Mission (Option AgentRunStep)
unfolding ready_step_from
ready_step now m = ready_step_from now (run_steps m.run.id m.steps) m

abbrev pub promote : Instant → AgentRunStep → Exec Mission (Option AgentRunStep)
promote now step = do
  ready ← move_step now AgentRunStepStatus.ready "" step
  modify (λ m.
      write_run
        (record (m.run) { current_step_id = some step.id; current_step_index = step.sequence }) m)
  modify (
      append_event AgentRunEventType.step_ready (some ready)
        (some (StatusValue.of_step step.status)) (some (StatusValue.of_step ready.status)) ""
        "system" none)
  pure (some ready)

unfoldable pub next_pending_from :
    Instant → ℕ → List AgentRunStep → Exec Mission (Option AgentRunStep)
next_pending_from now sequence [] = pure none
next_pending_from now sequence (step ∷ rest) =
    let later = next_pending_from now sequence rest in
    if ltb sequence step.sequence && (step.status == AgentRunStepStatus.pending)
    then promote now step
    else later

unfoldable pub next_pending_step : Instant → AgentRunStep → Exec Mission (Option AgentRunStep)
unfolding next_pending_from
next_pending_step now completed m =
    next_pending_from now completed.sequence (run_steps m.run.id m.steps) m
