-- ===== src/AgentRun/Fixtures.antt =====
-- A run, its steps and a store, for the tests.
use aixion_control_tower.Prelude.{ℕ, ◌*◌, false, none, some, List, [], ◌∷◌, String}
use aixion_control_tower.AgentRun.Models.{
  AgentRunStatus, AgentRunStepType, AgentRunStepStatus, AgentRun, AgentRunStep, second,
}
use aixion_control_tower.AgentRun.Supervisor.State.{Mission}

abbrev pub run_in : AgentRunStatus → AgentRun
run_in s = record {
  id = "run_1";
  task_id = "task_1";
  approval_request_id = some "approval_1";
  capability_lease_id = none;
  project_id = none;
  repository = some "owner/name";
  objective = "Add a health check";
  correlation_id = "corr_1";
  status = s;
  current_step_id = some "step_0";
  current_step_index = 0;
  max_attempts_per_step = 3;
  pause_requested = false;
  cancel_requested = false;
  lease_owner = none;
  lease_token = none;
  lease_expires_at = none;
  heartbeat_at = none;
  started_at = none;
  completed_at = none;
  final_evidence_hash = none;
  last_error = none;
  created_at = 0;
  updated_at = 0;
}

abbrev pub step_in : String → ℕ → ℕ → AgentRunStepStatus → AgentRunStep
step_in id sequence attempts s = record {
  id = id;
  run_id = "run_1";
  task_id = "task_1";
  sequence = sequence;
  step_type = AgentRunStepType.create_branch;
  status = s;
  attempt_count = attempts;
  max_attempts = 3;
  idempotency_key = "run_1:create_branch";
  lease_owner = none;
  lease_token = none;
  lease_expires_at = none;
  heartbeat_at = none;
  next_retry_at = none;
  started_at = none;
  completed_at = none;
  duration_ms = none;
  decision = none;
  reason = "";
  last_error = none;
  evidence = [];
  evidence_hash = none;
  output_reference = none;
  created_at = 0;
  updated_at = 0;
}

-- A step at work, and the one after it.
abbrev pub working_step : AgentRunStep
working_step = step_in "step_0" 0 1 AgentRunStepStatus.running

abbrev pub waiting_step : AgentRunStep
waiting_step = step_in "step_1" 1 0 AgentRunStepStatus.pending

abbrev pub mission_of : AgentRun → List AgentRunStep → Mission
mission_of r steps = record { run = r; steps = steps; events = []; audits = []; faults = [] }

abbrev pub working : Mission
working = mission_of (run_in AgentRunStatus.running) (working_step ∷ waiting_step ∷ [])

-- The same store with a run lease that has expired.
abbrev pub deserted : Mission
deserted =
    mission_of
      (record (run_in AgentRunStatus.running) {
        lease_owner = some "alice";
        lease_token = some "token_1";
        lease_expires_at = some (60 * second);
      })
      (working_step ∷ waiting_step ∷ [])
