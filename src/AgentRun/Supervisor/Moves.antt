-- ===== src/AgentRun/Supervisor/Moves.antt =====
-- Legal moves of a step or of the run, as the supervisor makes them: what the store is afterwards.
use aixion_control_tower.Prelude.{◌≡◌, true, false, none, String, arith, ◌==◌, contains, not, ◌&&◌}
use aixion_control_tower.Prelude.Exec.{ok}
use aixion_control_tower.AgentRun.Models.{
  Instant, AgentRunStatus, AgentRunStepStatus, AgentRun, AgentRunStep, run_status_eq,
  step_status_eq,
}
use aixion_control_tower.AgentRun.StateMachine.Runs.{
  terminal_run_statuses, run_transitions, enter_run, transition_run,
}
use aixion_control_tower.AgentRun.StateMachine.Steps.{
  terminal_step_statuses, step_transitions, enter_step, transition_step,
}
use aixion_control_tower.AgentRun.Supervisor.State.{
  Mission, write_run, write_step, move_step, move_run,
}

-- `target` is another status, which the table allows.
abbrev pub CanMoveStep : AgentRunStepStatus → AgentRunStepStatus → Type 0
CanMoveStep current target =
    ((not (target == current)) && contains target (step_transitions current)) ≡ true

abbrev pub CanMoveRun : AgentRunStatus → AgentRunStatus → Type 0
CanMoveRun current target =
    ((not (target == current)) && contains target (run_transitions current)) ≡ true

pub move_step-legal :
    (now : Instant) (target : AgentRunStepStatus) (reason : String) (step : AgentRunStep)
    (m : Mission)
    → CanMoveStep step.status target
    → move_step now target reason step m
      ≡ (ok (enter_step now target reason step), write_step (enter_step now target reason step) m)
unfolding move_step transition_step
move_step-legal now target reason step m h = ground arith

pub move_run-legal :
    (now : Instant) (target : AgentRunStatus) (reason : String) (m : Mission)
    → CanMoveRun m.run.status target
    → move_run now target reason m ≡ (ok tt, write_run (enter_run now target reason m.run) m)
unfolding move_run transition_run
move_run-legal now target reason m h = ground arith

-- What entering a status leaves alone, and what it writes.
pub record Entered (target : AgentRunStepStatus) (before after : AgentRunStep) : Type 0 where
  pub status : after.status ≡ target
  pub id : after.id ≡ before.id
  pub run_id : after.run_id ≡ before.run_id
  pub sequence : after.sequence ≡ before.sequence
  pub max_attempts : after.max_attempts ≡ before.max_attempts
  pub attempts :
      (target == AgentRunStepStatus.running) ≡ false → after.attempt_count ≡ before.attempt_count
  pub unowned : contains target terminal_step_statuses ≡ true → after.lease_owner ≡ none

pub enter_step_lem :
    (now : Instant) (target : AgentRunStepStatus) (reason : String) (step : AgentRunStep)
    → Entered target step (enter_step now target reason step)
unfolding enter_step
enter_step_lem now target reason step = ground arith

pub record RunEntered (target : AgentRunStatus) (before after : AgentRun) : Type 0 where
  pub status : after.status ≡ target
  pub id : after.id ≡ before.id
  pub unowned : contains target terminal_run_statuses ≡ true → after.lease_owner ≡ none
  pub untokened : contains target terminal_run_statuses ≡ true → after.lease_token ≡ none
  pub paused : after.pause_requested ≡ before.pause_requested
  pub cancelled : after.cancel_requested ≡ before.cancel_requested
  pub current : after.current_step_id ≡ before.current_step_id

pub enter_run_lem :
    (now : Instant) (target : AgentRunStatus) (reason : String) (run : AgentRun)
    → RunEntered target run (enter_run now target reason run)
unfolding enter_run
enter_run_lem now target reason run = ground arith
