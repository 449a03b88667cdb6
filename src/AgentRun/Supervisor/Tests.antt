-- ===== src/AgentRun/Supervisor/Tests.antt =====
-- The supervisor at concrete inputs.
use aixion_control_tower.Prelude.{
  ◌*◌, ◌≡◌, ◌⊎◌, inr, refl, ap, true, false, [], ◌∷◌, String, arith, eq_iff, string_eq,
}
use aixion_control_tower.Prelude.Exec.{ok, err, conflict}
use aixion_control_tower.Prelude.Dict.{put}
use aixion_control_tower.Prelude.Text.{lower_code}
use aixion_control_tower.AgentRun.Models.{
  Evidence, AgentRunStatus, AgentRunStepStatus, AgentRunStep, AgentRunStepExecutionResult, second,
  decision_index,
}
use aixion_control_tower.AgentRun.Fixtures.{
  run_in, step_in, working_step, waiting_step, mission_of, working, deserted,
}
use aixion_control_tower.AgentRun.StateMachine.Steps.{enter_step}
use aixion_control_tower.AgentRun.Verifier.{contains_any, classify_execution_result}
use aixion_control_tower.AgentRun.Supervisor.State.{Mission, run_steps, step_keyed}
use aixion_control_tower.AgentRun.Supervisor.Leases.{acquire_run_lease}
use aixion_control_tower.AgentRun.Supervisor.Select.{ready_step}
use aixion_control_tower.AgentRun.Supervisor.Apply.{record_result, apply_execution_result}
use aixion_control_tower.AgentRun.Supervisor.Control.{cancel_agent_run, retry_agent_run_step}
use aixion_control_tower.AgentRun.Supervisor.Recover.{recover_run}
use aixion_control_tower.AgentRun.Supervisor.LeaseLaws.{acquire_mutual_exclusion}
use aixion_control_tower.AgentRun.Supervisor.SelectLaws.{Chosen, ready_step_lem}
use aixion_control_tower.AgentRun.Supervisor.ApplyLaws.{Ends, apply-Ends}
use aixion_control_tower.AgentRun.Supervisor.DueLaws.{Due, apply-Due}
use aixion_control_tower.AgentRun.Supervisor.PassLaws.{Passed, apply-Passed}
use aixion_control_tower.AgentRun.Supervisor.CancelLaws.{Cancelled, cancel_agent_run-Cancelled}
use aixion_control_tower.AgentRun.Supervisor.RecoverLaws.{Recovered, recover_run-Recovered}
use aixion_control_tower.AgentRun.Supervisor.Execute.{Outcome, Environment, execute_next_step}
use aixion_control_tower.AgentRun.Supervisor.RefusalLaws.{Refused, execute_next_step-Refused}
use aixion_control_tower.AgentRun.Supervisor.RetryLaws.{MayRetry, Retried, retry_agent_run_step_lem}

abbrev leased_by_alice : Mission
unfolding acquire_run_lease
leased_by_alice = (acquire_run_lease "alice" 60 1000 "token_1" working).1

acquire_mutual_exclusion_example :
    acquire_run_lease "bob" 60 2000 "token_2" leased_by_alice ≡ (err conflict, leased_by_alice)
unfolding acquire_run_lease
acquire_mutual_exclusion_example =
    acquire_mutual_exclusion "alice" "bob" 60 60 1000 2000 "token_1" "token_2" "token_1" working
      leased_by_alice (omega arith) refl
      (λ e. ground (arith, (eq_iff {A = String} "bob" "alice").1 e)) refl refl

abbrev done_step : AgentRunStep
done_step = step_in "step_0" 0 1 AgentRunStepStatus.succeeded

abbrev next_step : AgentRunStep
next_step = step_in "step_1" 1 0 AgentRunStepStatus.ready

abbrev halfway : Mission
halfway = mission_of (run_in AgentRunStatus.scheduled) (next_step ∷ done_step ∷ [])

ready_step_lem_example : Chosen 60 (run_steps "run_1" (next_step ∷ done_step ∷ [])) next_step
unfolding ready_step run_steps
ready_step_lem_example = ready_step_lem 60 halfway halfway next_step refl

unfoldable timed_out : AgentRunStepExecutionResult
unfolding classify_execution_result contains_any lower_code
timed_out = classify_execution_result false "Request timed out." [] false

-- The hash of the evidence does not matter here.
abbrev no_hash : Evidence → String
no_hash evidence = "hash"

apply-Ends_example :
    Ends working_step AgentRunStepStatus.retry_wait AgentRunStatus.retry_wait
      (apply_execution_result no_hash 100 "alice" timed_out working_step working)
unfolding timed_out
apply-Ends_example =
    apply-Ends no_hash 100 "alice" timed_out working_step working refl refl
      (λ e. ground (arith, ap decision_index e))

unfoldable passed : AgentRunStepExecutionResult
unfolding classify_execution_result
passed = classify_execution_result true "" [] false

apply-Passed_example :
    let noted = record_result no_hash 100 passed working_step in
    let done = enter_step 100 AgentRunStepStatus.succeeded passed.reason noted in
    Passed working_step
      (run_steps "run_1" (put done (put noted working.steps)))
      (apply_execution_result no_hash 100 "alice" passed working_step working)
unfolding passed
apply-Passed_example = apply-Passed no_hash 100 "alice" passed working_step working refl refl refl

apply-Due_example :
    Due 100 working_step (apply_execution_result no_hash 100 "alice" timed_out working_step working)
unfolding timed_out
apply-Due_example =
    apply-Due no_hash 100 "alice" timed_out working_step working refl refl refl (omega arith)

cancel_agent_run-Cancelled_example :
    Cancelled working (cancel_agent_run 9 "operator" "Stop." working)
unfolding run_steps
cancel_agent_run-Cancelled_example =
    cancel_agent_run-Cancelled 9 "operator" "Stop." working refl (refl, (refl, tt))

recover_run-Recovered_example :
    ((recover_run (90 * second) "watchdog" deserted).0 ≡ ok true)
    × Recovered working_step AgentRunStepStatus.retry_wait AgentRunStatus.retry_wait
        (recover_run (90 * second) "watchdog" deserted).1
recover_run-Recovered_example =
    recover_run-Recovered (90 * second) "watchdog" working_step deserted refl refl refl refl

abbrev failed_step : AgentRunStep
failed_step = step_in "step_0" 0 1 AgentRunStepStatus.failed

retry_agent_run_step_lem_example :
    let outcome = retry_agent_run_step 9 "operator" "Try again." failed_step working in
    (MayRetry failed_step working × Retried failed_step outcome)
    ⊎ (¬ MayRetry failed_step working × (outcome ≡ (err conflict, working)))
retry_agent_run_step_lem_example =
    retry_agent_run_step_lem 9 "operator" "Try again." failed_step working

-- An executor that does nothing.
abbrev idle : Environment
idle = record {
  evidence_hash = no_hash;
  fresh_token = "token_1";
  before = 100;
  after = 200;
  executor = λ step timeout m. (Outcome.raised "Idle." "RuntimeError", m);
}

-- A run that was asked to cancel.
abbrev leaving : Mission
leaving =
    mission_of (record (run_in AgentRunStatus.running) { cancel_requested = true })
      (working_step ∷ waiting_step ∷ [])

execute_next_step-Refused_example : Refused leaving (execute_next_step idle "alice" 60 30 leaving)
unfolding run_steps
execute_next_step-Refused_example =
    execute_next_step-Refused idle "alice" 60 30 leaving (inr refl) (refl, (refl, tt))
