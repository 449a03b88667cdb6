-- ===== src/AgentRun/StateMachine/DeriveLaws.antt =====
-- `derive_run_status` of agent_run_state_machine.py, beside the statuses of the steps.
use aixion_control_tower.Prelude.{
  Bool, true, false, ◌≡◌, ◌≢◌, ◌⊎◌, ◌↔◌, refl, List, [], ◌∷◌, arith, contains, all, All,
}
use aixion_control_tower.AgentRun.Models.{
  AgentRunStatus, AgentRunStepStatus, AgentRunStep, step_status_eq,
}
use aixion_control_tower.AgentRun.StateMachine.Derive.{
  some_step_is, passed_statuses, derive_run_status,
}

abbrev pub HasPassed : AgentRunStep → Type 0
HasPassed step =
    (step.status ≡ AgentRunStepStatus.succeeded) ⊎ (step.status ≡ AgentRunStepStatus.skipped)

all_passed : List AgentRunStep → Bool
all_passed = all (λ step. contains step.status passed_statuses)

passed→HasPassed :
    (step : AgentRunStep) → contains step.status passed_statuses ≡ true → HasPassed step
passed→HasPassed step h = ground arith

all_passed→All : (steps : List AgentRunStep) → all_passed steps ≡ true → All HasPassed steps
unfolding all_passed
all_passed→All [] h = tt
all_passed→All (s ∷ steps) h = ground (arith, all_passed→All steps, passed→HasPassed s)

All→all_passed : (steps : List AgentRunStep) → All HasPassed steps → all_passed steps ≡ true
unfolding all_passed
All→all_passed [] h = refl
All→all_passed (s ∷ steps) h = ground (arith, All→all_passed steps h.1)

All→none :
    (status : AgentRunStepStatus) (steps : List AgentRunStep)
    → contains status passed_statuses ≡ false
    → All HasPassed steps
    → some_step_is status steps ≡ false
All→none status [] n h = refl
All→none status (s ∷ steps) n h = ground (arith, All→none status steps n h.1)

derived_succeeded :
    (steps : List AgentRunStep) (pause cancel : Bool)
    → derive_run_status steps pause cancel ≡ AgentRunStatus.succeeded
    → (pause ≡ false) × (cancel ≡ false) × (steps ≢ []) × All HasPassed steps
unfolding derive_run_status all_passed
derived_succeeded [] pause cancel h = ground arith
derived_succeeded (s ∷ steps) pause cancel h = ground (arith, all_passed→All (s ∷ steps))

derive-succeeded :
    (steps : List AgentRunStep)
    → steps ≢ []
    → All HasPassed steps
    → derive_run_status steps false false ≡ AgentRunStatus.succeeded
unfolding derive_run_status all_passed
derive-succeeded [] ne h = absurd (ne refl)
derive-succeeded (s ∷ steps) ne h = simp (
  All→none AgentRunStepStatus.blocked (s ∷ steps) refl h,
  All→none AgentRunStepStatus.needs_human (s ∷ steps) refl h,
  All→none AgentRunStepStatus.failed (s ∷ steps) refl h,
  All→none AgentRunStepStatus.paused (s ∷ steps) refl h,
  All→all_passed (s ∷ steps) h,
)

-- A run is derived as SUCCEEDED exactly when it has steps, each of them SUCCEEDED or SKIPPED, and
-- neither a pause nor a cancellation is requested.
pub derive-succeeded_iff :
    (steps : List AgentRunStep) (pause cancel : Bool)
    → (derive_run_status steps pause cancel ≡ AgentRunStatus.succeeded)
      ↔ ((pause ≡ false) × (cancel ≡ false) × (steps ≢ []) × All HasPassed steps)
derive-succeeded_iff steps pause cancel =
    (derived_succeeded steps pause cancel, λ h. rw (h.0, h.1) (derive-succeeded steps h.2 h.3))
