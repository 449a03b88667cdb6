-- ===== src/AgentRun/StateMachine/StepLaws.antt =====
-- Calls and sequences of calls of `transition_step` (agent_run_state_machine.py).
use aixion_control_tower.Prelude.{
  ℕ, ◌+◌, Bool, true, false, ◌≡◌, ◌≢◌, ◌⊎◌, refl, String, List, [], ◌∷◌, arith, ◌==◌, ◌!=◌, ◌&&◌,
  contains, eq_iff, if◌then◌else◌,
}
use aixion_control_tower.Prelude.Exec.{ok, err, illegal_transition}
use aixion_control_tower.AgentRun.Models.{Instant, AgentRunStepStatus, AgentRunStep, step_status_eq}
use aixion_control_tower.AgentRun.StateMachine.Steps.{
  terminal_step_statuses, step_transitions, transition_step,
}

abbrev pub is_terminal : AgentRunStepStatus → Bool
is_terminal s = contains s terminal_step_statuses

-- The arguments of one call of `transition_step`.
pub record StepCall : Type 0 where
  pub now : Instant
  pub target : AgentRunStepStatus
  pub reason : String

abbrev pub call : StepCall → AgentRunStep → AgentRunStep
call c step = (transition_step c.now c.target c.reason step).1

-- The step after a sequence of calls, of which some may raise.
pub calls : List StepCall → AgentRunStep → AgentRunStep
calls [] step = step
calls (c ∷ cs) step = calls cs (call c step)

-- How often a sequence of calls moves the step from another status into RUNNING.
pub starts : List StepCall → AgentRunStep → ℕ
starts [] step = 0
starts (c ∷ cs) step =
    let later = starts cs (call c step) in
    if (step.status != AgentRunStepStatus.running)
      && ((call c step).status == AgentRunStepStatus.running)
    then later + 1
    else later

call_attempts :
    (c : StepCall) (step : AgentRunStep)
    → (call c step).attempt_count ≡ (
        if (step.status != AgentRunStepStatus.running)
          && ((call c step).status == AgentRunStepStatus.running)
        then step.attempt_count + 1
        else step.attempt_count)
unfolding transition_step
call_attempts c step = ground arith

-- After any calls of `transition_step`, legal or refused, the attempt count has grown by exactly
-- the number of times the step entered RUNNING.
pub calls_attempts :
    (cs : List StepCall) (step : AgentRunStep)
    → (calls cs step).attempt_count ≡ step.attempt_count + starts cs step
unfolding calls starts
calls_attempts [] step = omega arith
calls_attempts (c ∷ cs) step = ground (arith, calls_attempts cs (call c step), call_attempts c step)

no_way_out :
    (s t : AgentRunStepStatus) → is_terminal s ≡ true → contains t (step_transitions s) ≡ false
no_way_out AgentRunStepStatus.blocked t h = refl
no_way_out s t h = ground arith

call-terminal :
    (c : StepCall) (step : AgentRunStep) → is_terminal step.status ≡ true → call c step ≡ step
unfolding transition_step
call-terminal c step h = ground (arith, no_way_out step.status c.target h)

-- No sequence of calls of `transition_step` changes anything of a step in a terminal status.
pub calls-terminal :
    (cs : List StepCall) (step : AgentRunStep)
    → is_terminal step.status ≡ true
    → calls cs step ≡ step
unfolding calls
calls-terminal [] step h = refl
calls-terminal (c ∷ cs) step h =
    let same : call c step ≡ step = call-terminal c step h in rw same (calls-terminal cs step h)

-- `transition_step` returns exactly when the target is the present status or follows it in the
-- table; then the step has the target status, else it raises and leaves the step as it was.
pub transition_step_lem :
    (now : Instant) (t : AgentRunStepStatus) (reason : String) (step : AgentRunStep)
    → let (r, step') = transition_step now t reason step in
      ((r ≡ ok (step.status, t))
        × (step'.status ≡ t)
        × ((t ≡ step.status) ⊎ (contains t (step_transitions step.status) ≡ true)))
      ⊎ ((r ≡ err illegal_transition)
          × (step' ≡ step)
          × (t ≢ step.status)
          × (contains t (step_transitions step.status) ≡ false))
unfolding transition_step
transition_step_lem now t reason step = ground (arith, eq_iff t step.status)
