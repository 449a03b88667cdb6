-- ===== src/AgentRun/StateMachine/Runs.antt =====
-- The transition table of runs and `transition_run` of agent_run_state_machine.py.
use aixion_control_tower.Prelude.{
  Bool, ◌&&◌, ◌||◌, not, none, some, List, [], ◌∷◌, String, ◌==◌, contains, truthy, is_some,
  if◌then◌else◌,
}
use aixion_control_tower.Prelude.Exec.{Exec, ok, err, illegal_transition}
use aixion_control_tower.AgentRun.Models.{Instant, AgentRunStatus, AgentRun, run_status_eq}
use aixion_control_tower.AgentRun.Models.{
  AgentRunStatus.scheduled, AgentRunStatus.running, AgentRunStatus.evaluating,
  AgentRunStatus.retry_wait, AgentRunStatus.paused, AgentRunStatus.needs_human,
  AgentRunStatus.blocked, AgentRunStatus.succeeded, AgentRunStatus.failed, AgentRunStatus.cancelled,
}

-- `TERMINAL_RUN_STATUSES`
abbrev pub terminal_run_statuses : List AgentRunStatus
terminal_run_statuses = blocked ∷ succeeded ∷ failed ∷ cancelled ∷ []

-- `RUN_TRANSITIONS`
abbrev pub run_transitions : AgentRunStatus → List AgentRunStatus
run_transitions scheduled = running ∷ paused ∷ needs_human ∷ cancelled ∷ blocked ∷ failed ∷ []
run_transitions running =
    scheduled ∷ evaluating ∷ retry_wait ∷ paused ∷ needs_human ∷ blocked ∷ succeeded ∷ failed
    ∷ cancelled ∷ []
run_transitions evaluating =
    running ∷ retry_wait ∷ needs_human ∷ blocked ∷ succeeded ∷ failed ∷ cancelled ∷ []
run_transitions retry_wait =
    scheduled ∷ running ∷ paused ∷ needs_human ∷ blocked ∷ failed ∷ cancelled ∷ []
run_transitions paused = scheduled ∷ running ∷ cancelled ∷ []
run_transitions needs_human = scheduled ∷ running ∷ blocked ∷ failed ∷ cancelled ∷ []
run_transitions blocked = []
run_transitions succeeded = []
run_transitions failed = []
run_transitions cancelled = []

unfoldable pub can_transition_run : AgentRunStatus → AgentRunStatus → Bool
can_transition_run current target = target == current || contains target (run_transitions current)

-- The writes of `transition_run` to a run that may move to `target`.
unfoldable pub enter_run : Instant → AgentRunStatus → String → AgentRun → AgentRun
enter_run now target reason run =
    let moved = record run { status = target; updated_at = now } in
    let started =
      if target == running && not (is_some run.started_at)
      then record moved { started_at = some now }
      else moved in
    let closed =
      if contains target terminal_run_statuses
      then record started {
        completed_at = some now;
        lease_owner = none;
        lease_token = none;
        lease_expires_at = none;
      }
      else started in
    if truthy reason && contains target (failed ∷ blocked ∷ [])
    then record closed { last_error = some reason }
    else closed

unfoldable pub transition_run :
    Instant → AgentRunStatus → String → Exec AgentRun (AgentRunStatus × AgentRunStatus)
unfolding can_transition_run enter_run
transition_run now target reason run =
    let previous = run.status in
    if target == previous
    then (ok (previous, target), run)
    else if not (can_transition_run previous target)
    then (err illegal_transition, run)
    else (ok (previous, target), enter_run now target reason run)
