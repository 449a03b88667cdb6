-- ===== src/Tasks/Tests.antt =====
-- Concrete runs of the claims and of the operator's retries.
use aixion_control_tower.Prelude.{◌+◌, ◌≡◌, ◌*◌, refl, List, [], ◌∷◌, arith}
use aixion_control_tower.AgentRun.Models.{second}
use aixion_control_tower.Tasks.Models.{AgentTask, AgentTaskStatus}
use aixion_control_tower.Tasks.Claims.{
  ClaimFailure, ClaimResult, lease_task, claim_agent_task_for_worker,
}
use aixion_control_tower.Tasks.ClaimLaws.{claim_exclusive}
use aixion_control_tower.Tasks.Operator.{TaskStore, retry_agent_task}
use aixion_control_tower.Tasks.OperatorLaws.{RetryEnds, retry_agent_task_lem}
use aixion_control_tower.Tasks.Fixtures.{login_task}

abbrev tasks : List AgentTask
tasks = login_task ∷ []

abbrev held : AgentTask
held = lease_task 5 "worker" 60 "token" login_task

claim_exclusive_example :
    claim_agent_task_for_worker "task_1" 100 "rival" 60 "other" (held ∷ [])
    ≡ (ClaimResult.refused ClaimFailure.leased, held ∷ [])
unfolding claim_agent_task_for_worker
claim_exclusive_example =
    claim_exclusive "task_1" 5 100 "worker" "rival" 60 60 "token" "token" "other" held
      (5 + 60 * second) tasks (held ∷ []) refl (omega arith) refl

abbrev failed_store : TaskStore
failed_store = record {
  tasks = record login_task { status = AgentTaskStatus.failed } ∷ [];
  events = [];
}

retry_agent_task_lem_example :
    RetryEnds "task_1" 3 failed_store
      (retry_agent_task "event_1" 10 "owner" 3 "task_1" failed_store)
retry_agent_task_lem_example =
    retry_agent_task_lem "event_1" 10 "owner" 3 "task_1" failed_store refl
