-- ===== src/AgentRun/Tests.antt =====
-- The state machine and the verifier at concrete inputs.
use aixion_control_tower.Prelude.{◌+◌, true, false, ◌≡◌, ◌≢◌, ◌↔◌, refl, some, List, [], ◌∷◌, All}
use aixion_control_tower.AgentRun.Models.{
  AgentRunStatus, AgentRunStepStatus, AgentRun, AgentRunStep, VerificationDecision, run_status_eq,
  step_status_eq,
}
use aixion_control_tower.AgentRun.Fixtures.{run_in, working_step}
use aixion_control_tower.AgentRun.StateMachine.Runs.{transition_run}
use aixion_control_tower.AgentRun.StateMachine.Derive.{derive_run_status}
use aixion_control_tower.AgentRun.StateMachine.RunLaws.{
  RunMoves, here, then, move, IsClosed, RunMoves-IsClosed, RunMoves-terminal,
}
use aixion_control_tower.AgentRun.StateMachine.StepLaws.{
  StepCall, calls, starts, calls_attempts, calls-terminal,
}
use aixion_control_tower.AgentRun.StateMachine.DeriveLaws.{HasPassed, derive-succeeded_iff}
use aixion_control_tower.AgentRun.Verifier.{ScopeApproval, validate_scope_contract}
use aixion_control_tower.AgentRun.Verifier.Scope.{scope-protected, InScope, scope_contract_iff}

abbrev finished : AgentRun
finished = record (run_in AgentRunStatus.succeeded) { completed_at = some 5 }

abbrev one_move : RunMoves finished (transition_run 9 AgentRunStatus.running "again" finished).1
one_move = then here (move 9 AgentRunStatus.running "again" finished)

RunMoves-IsClosed_example : IsClosed (transition_run 9 AgentRunStatus.running "again" finished).1
RunMoves-IsClosed_example = RunMoves-IsClosed one_move (record {
  completed = λ _. refl;
  unowned = λ _. refl;
  untokened = λ _. refl;
  unleased = λ _. refl;
})

RunMoves-terminal_example : (transition_run 9 AgentRunStatus.running "again" finished).1 ≡ finished
RunMoves-terminal_example = RunMoves-terminal refl one_move

-- A failure, a retry and a success.
abbrev life : List StepCall
life =
    record { now = 1; target = AgentRunStepStatus.retry_wait; reason = "timeout" }
    ∷ record { now = 2; target = AgentRunStepStatus.ready; reason = "" }
    ∷ record { now = 3; target = AgentRunStepStatus.running; reason = "" }
    ∷ record { now = 4; target = AgentRunStepStatus.succeeded; reason = "" }
    ∷ []

calls_attempts_example :
    (calls life working_step).attempt_count ≡ working_step.attempt_count + starts life working_step
calls_attempts_example = calls_attempts life working_step

abbrev done_step : AgentRunStep
done_step = record working_step { status = AgentRunStepStatus.succeeded }

calls-terminal_example : calls life done_step ≡ done_step
calls-terminal_example = calls-terminal life done_step refl

derive-succeeded_iff_example :
    (derive_run_status (done_step ∷ []) false false ≡ AgentRunStatus.succeeded)
    ↔ ((false ≡ false) × (false ≡ false) × (done_step ∷ [] ≢ []) × All HasPassed (done_step ∷ []))
derive-succeeded_iff_example = derive-succeeded_iff (done_step ∷ []) false false

abbrev approved_scope : ScopeApproval
approved_scope = record { status = "approved"; files = "a.py" ∷ []; test_plan = "pytest" ∷ [] }

scope-protected_example :
    (validate_scope_contract (some "owner/name") (some " main ") (some approved_scope)).decision
    ≡ VerificationDecision.block_policy
scope-protected_example =
    scope-protected (some "owner/name") (some " main ") (some approved_scope) refl

scope_contract_iff_example :
    ((validate_scope_contract (some "owner/name") (some "feature/x") (some approved_scope)).success
      ≡ true)
    ↔ InScope (some "owner/name") (some "feature/x") (some approved_scope)
scope_contract_iff_example =
    scope_contract_iff (some "owner/name") (some "feature/x") (some approved_scope)
