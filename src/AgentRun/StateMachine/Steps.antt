-- ===== src/AgentRun/StateMachine/Steps.antt =====
-- The transition table of steps and `transition_step` of agent_run_state_machine.py.
use aixion_control_tower.Prelude.{
  ℕ, ◌+◌, ◌-◌, ◌/◌, Bool, ◌||◌, not, Option, none, some, List, [], ◌∷◌, String, ◌==◌, contains,
  truthy, is_some, if◌then◌else◌,
}
use aixion_control_tower.Prelude.Exec.{Exec, ok, err, illegal_transition}
use aixion_control_tower.AgentRun.Models.{
  Instant, AgentRunStepStatus, AgentRunStep, step_status_eq, AgentRunStepStatus.pending,
  AgentRunStepStatus.ready, AgentRunStepStatus.running, AgentRunStepStatus.retry_wait,
  AgentRunStepStatus.paused, AgentRunStepStatus.needs_human, AgentRunStepStatus.blocked,
  AgentRunStepStatus.succeeded, AgentRunStepStatus.failed, AgentRunStepStatus.cancelled,
  AgentRunStepStatus.skipped,
}

-- `TERMINAL_STEP_STATUSES`
abbrev pub terminal_step_statuses : List AgentRunStepStatus
terminal_step_statuses = blocked ∷ succeeded ∷ failed ∷ cancelled ∷ skipped ∷ []

-- `STEP_TRANSITIONS`
abbrev pub step_transitions : AgentRunStepStatus → List AgentRunStepStatus
step_transitions pending = ready ∷ paused ∷ needs_human ∷ blocked ∷ cancelled ∷ skipped ∷ []
step_transitions ready = running ∷ paused ∷ needs_human ∷ blocked ∷ cancelled ∷ skipped ∷ []
step_transitions running = succeeded ∷ retry_wait ∷ needs_human ∷ blocked ∷ failed ∷ cancelled ∷ []
step_transitions retry_wait = ready ∷ needs_human ∷ blocked ∷ failed ∷ cancelled ∷ []
step_transitions paused = ready ∷ cancelled ∷ []
step_transitions needs_human = ready ∷ blocked ∷ failed ∷ cancelled ∷ []
step_transitions blocked = []
step_transitions succeeded = []
step_transitions failed = []
step_transitions cancelled = []
step_transitions skipped = []

unfoldable pub can_transition_step : AgentRunStepStatus → AgentRunStepStatus → Bool
can_transition_step current target = target == current || contains target (step_transitions current)

-- `max(0, int((now - started_at).total_seconds() * 1000))`, or the old value if never started
abbrev pub duration_since : Option Instant → Instant → Option ℕ → Option ℕ
duration_since none now old = old
duration_since (some start) now old = some ((now - start) / 1000)

-- The writes of `transition_step` to a step that may move to `target`.
unfoldable pub enter_step : Instant → AgentRunStepStatus → String → AgentRunStep → AgentRunStep
enter_step now target reason step =
    let moved = record step { status = target; updated_at = now } in
    let started =
      if target == running
      then record moved {
        started_at = if is_some step.started_at then step.started_at else some now;
        attempt_count = step.attempt_count + 1;
      }
      else moved in
    let closed =
      if contains target terminal_step_statuses
      then record started {
        completed_at = some now;
        duration_ms = duration_since started.started_at now started.duration_ms;
        lease_owner = none;
        lease_token = none;
        lease_expires_at = none;
      }
      else started in
    let explained = if truthy reason then record closed { reason = reason } else closed in
    if truthy reason
    then if contains target (failed ∷ blocked ∷ [])
      then record explained { last_error = some reason }
      else explained
    else explained

unfoldable pub transition_step :
    Instant
    → AgentRunStepStatus
    → String
    → Exec AgentRunStep (AgentRunStepStatus × AgentRunStepStatus)
unfolding can_transition_step enter_step
transition_step now target reason step =
    let previous = step.status in
    if target == previous
    then (ok (previous, target), step)
    else if not (can_transition_step previous target)
    then (err illegal_transition, step)
    else (ok (previous, target), enter_step now target reason step)
