-- ===== src/Tasks/Claims.antt =====
-- backend/app/agent_worker_claims.py: how a worker claims an approved task. Each claim runs under
-- SQLite's BEGIN IMMEDIATE, so that claims follow one another; the rows of the `agent_task` type are
-- the task list, in the order of the ids for the second form of a claim. A call reads the clock once.
use aixion_control_tower.Prelude.{
  ℕ, ◌+◌, ◌*◌, Bool, true, false, not, Option, none, some, List, [], ◌∷◌, String, ◌!=◌, contains,
  is_set, leb, keep, if◌then◌else◌,
}
use aixion_control_tower.Prelude.Dict.{get, put}
use aixion_control_tower.Prelude.Sort.{sort_by}
use aixion_control_tower.AgentRun.Models.{Instant, second}
use aixion_control_tower.Tasks.Models.{AgentTask, AgentTaskStatus, task_status_eq, task_keyed}

-- `TERMINAL_STATUSES`
abbrev pub terminal_task_statuses : List AgentTaskStatus
terminal_task_statuses =
    AgentTaskStatus.denied ∷ AgentTaskStatus.failed ∷ AgentTaskStatus.cancelled
    ∷ AgentTaskStatus.done ∷ []

-- Why a claim fails, in place of the reason's wording.
pub data ClaimFailure : Type 0 where
  not_found terminal not_approved no_approval leased none_available : ClaimFailure

-- `AgentWorkerClaimResult`
pub data ClaimResult : Type 0 where
  claimed : (task : AgentTask) (lease_token : String) (lease_expires_at : Instant) → ClaimResult
  refused : ClaimFailure → ClaimResult

-- `_is_lease_available`
abbrev pub is_lease_available : Instant → AgentTask → Bool
is_lease_available now task =
    if not (is_set task.worker_lease_owner)
    then true
    else elim task.worker_lease_expires_at [ none ↦ false | some t ↦ leb t now ]

-- `_eligibility_failure` of a task that was found
unfoldable pub eligibility_failure : Instant → AgentTask → Option ClaimFailure
eligibility_failure now task =
    if contains task.status terminal_task_statuses
    then some ClaimFailure.terminal
    else if task.status != AgentTaskStatus.approved
    then some ClaimFailure.not_approved
    else if not (is_set task.approval_request_id)
    then some ClaimFailure.no_approval
    else if not (is_lease_available now task)
    then some ClaimFailure.leased
    else none

abbrev pub is_eligible : Instant → AgentTask → Bool
is_eligible now task = elim (eligibility_failure now task) [ none ↦ true | some f ↦ false ]

-- The writes of `_claim_loaded_task`.
abbrev pub lease_task : Instant → String → ℕ → String → AgentTask → AgentTask
lease_task now worker_id lease_seconds token task = record task {
  worker_lease_owner = some worker_id;
  worker_lease_token = some token;
  worker_lease_expires_at = some (now + lease_seconds * second);
  updated_at = now;
}

abbrev pub claim_loaded_task :
    Instant → String → ℕ → String → AgentTask → List AgentTask → ClaimResult × List AgentTask
claim_loaded_task now worker_id lease_seconds token task tasks =
    let held = lease_task now worker_id lease_seconds token task in
    (ClaimResult.claimed held token (now + lease_seconds * second), put held tasks)

-- The rest of `claim_agent_task_for_worker`, given the reason against the task.
abbrev pub claim_unless :
    Option ClaimFailure
    → Instant
    → String
    → ℕ
    → String
    → AgentTask
    → List AgentTask
    → ClaimResult × List AgentTask
claim_unless (some failure) now worker_id lease_seconds token task tasks =
    (ClaimResult.refused failure, tasks)
claim_unless none now worker_id lease_seconds token task tasks =
    claim_loaded_task now worker_id lease_seconds token task tasks

abbrev pub claim_found :
    Option AgentTask → Instant → String → ℕ → String → List AgentTask → ClaimResult × List AgentTask
claim_found none now worker_id lease_seconds token tasks =
    (ClaimResult.refused ClaimFailure.not_found, tasks)
claim_found (some task) now worker_id lease_seconds token tasks =
    claim_unless (eligibility_failure now task) now worker_id lease_seconds token task tasks

-- `claim_agent_task_for_worker`; the fresh token is an argument.
unfoldable pub claim_agent_task_for_worker :
    String → Instant → String → ℕ → String → List AgentTask → ClaimResult × List AgentTask
unfolding eligibility_failure
claim_agent_task_for_worker task_id now worker_id lease_seconds token tasks =
    claim_found (get task_id tasks) now worker_id lease_seconds token tasks

abbrev pub claim_oldest :
    List AgentTask → Instant → String → ℕ → String → List AgentTask → ClaimResult × List AgentTask
claim_oldest [] now worker_id lease_seconds token tasks =
    (ClaimResult.refused ClaimFailure.none_available, tasks)
claim_oldest (task ∷ rest) now worker_id lease_seconds token tasks =
    claim_loaded_task now worker_id lease_seconds token task tasks

-- The eligible tasks, the one that has waited longest first.
abbrev pub candidates : Instant → List AgentTask → List AgentTask
candidates now tasks = sort_by (λ task. task.updated_at) (keep (is_eligible now) tasks)

-- `claim_first_approved_agent_task_for_worker`
unfoldable pub claim_first_approved_agent_task_for_worker :
    Instant → String → ℕ → String → List AgentTask → ClaimResult × List AgentTask
unfolding eligibility_failure
claim_first_approved_agent_task_for_worker now worker_id lease_seconds token tasks =
    claim_oldest (candidates now tasks) now worker_id lease_seconds token tasks
