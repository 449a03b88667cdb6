-- ===== src/Tasks/ClaimLaws.antt =====
-- Claims of tasks by workers (agent_worker_claims.py).
use aixion_control_tower.Prelude.{
  ℕ, ◌+◌, ◌*◌, ◌<◌, ◌≡◌, refl, ◌∙◌, true, Option, none, some, List, String, arith, truthy, is_set,
  Option-cases, inl, inr, eq_iff,
}
use mathlib.Core.Path.{subst}
use aixion_control_tower.Prelude.Dict.{get, put, get-put_self, key-get}
use aixion_control_tower.AgentRun.Models.{Instant, second}
use aixion_control_tower.Tasks.Models.{AgentTask, AgentTaskStatus, task_status_eq, task_keyed}
use aixion_control_tower.Tasks.Claims.{
  ClaimFailure, ClaimResult, is_lease_available, eligibility_failure, lease_task, claim_unless,
  claim_found, claim_agent_task_for_worker,
}

-- What a task needs for a claim.
pub record MayClaim (now : Instant) (task : AgentTask) : Type 0 where
  pub approved : task.status ≡ AgentTaskStatus.approved
  pub linked : is_set task.approval_request_id ≡ true
  pub free : is_lease_available now task ≡ true

eligible :
    (now : Instant) (task : AgentTask) → eligibility_failure now task ≡ none → MayClaim now task
unfolding eligibility_failure
eligible now task h = ground (arith, eq_iff task.status AgentTaskStatus.approved)

-- The task as the claim leaves it in the store.
pub record Claimed (task_id : String) (now : Instant) (worker_id : String) (expiry : Instant)
    (token : String) (tasks tasks' : List AgentTask) : Type 0 where
  pub before : AgentTask
  pub was_there : get task_id tasks ≡ some before
  pub was_eligible : MayClaim now before
  pub after : AgentTask
  pub found : get task_id tasks' ≡ some after
  pub owner : after.worker_lease_owner ≡ some worker_id
  pub token_is : after.worker_lease_token ≡ some token
  pub expires : after.worker_lease_expires_at ≡ some expiry
  pub status : after.status ≡ before.status
  pub linked : is_set after.approval_request_id ≡ true

claimed_unless :
    (f : Option ClaimFailure) (task_id : String) (now : Instant) (w : String) (n : ℕ)
    (token : String) (task held : AgentTask) (expiry : Instant) (fresh : String)
    (tasks tasks' : List AgentTask)
    → get task_id tasks ≡ some task
    → eligibility_failure now task ≡ f
    → claim_unless f now w n token task tasks ≡ (ClaimResult.claimed held fresh expiry, tasks')
    → Claimed task_id now w expiry token tasks tasks'
claimed_unless (some f) task_id now w n token task held expiry fresh tasks tasks' there why h =
    ground arith
claimed_unless none task_id now w n token task held expiry fresh tasks tasks' there why h =
    let after = lease_task now w n token task in
    let stored : tasks' ≡ put after tasks = ground arith in
    let at : expiry ≡ now + n * second = ground arith in
    record {
      before = task;
      was_there = there;
      was_eligible = eligible now task why;
      after = after;
      found = rw stored (get-put_self after task_id tasks (key-get task_id tasks task there));
      owner = refl;
      token_is = refl;
      expires = rw at refl;
      status = refl;
      linked = (eligible now task why).linked;
    }

-- A claim that succeeds was of an APPROVED task with a linked approval that no worker held, and the
-- store then has that task with the worker, the token and the expiry.
pub claim_agent_task_for_worker_lem :
    (task_id : String) (now : Instant) (w : String) (n : ℕ) (token fresh : String)
    (held : AgentTask) (expiry : Instant) (tasks tasks' : List AgentTask)
    → claim_agent_task_for_worker task_id now w n token tasks
      ≡ (ClaimResult.claimed held fresh expiry, tasks')
    → Claimed task_id now w expiry token tasks tasks'
unfolding claim_agent_task_for_worker
claim_agent_task_for_worker_lem task_id now w n token fresh held expiry tasks tasks' h =
    elim (Option-cases (get task_id tasks)) [
      | inl nothing ↦ ground (arith, nothing)
      | inr (task, there) ↦
          claimed_unless (eligibility_failure now task) task_id now w n token task held expiry fresh
            tasks tasks' there refl
            (subst
              (λ o.
                claim_found o now w n token tasks ≡ (ClaimResult.claimed held fresh expiry, tasks'))
              there h)
    ]

held_failure :
    (now : Instant) (task : AgentTask) (w : String) (expiry : Instant)
    → task.status ≡ AgentTaskStatus.approved
    → is_set task.approval_request_id ≡ true
    → task.worker_lease_owner ≡ some w
    → truthy w ≡ true
    → task.worker_lease_expires_at ≡ some expiry
    → now < expiry
    → eligibility_failure now task ≡ some ClaimFailure.leased
unfolding eligibility_failure
held_failure now task w expiry approved linked owner named expires live = ground arith

refused_unless :
    (f : ClaimFailure) (task_id : String) (now : Instant) (w : String) (n : ℕ) (token : String)
    (task : AgentTask) (tasks : List AgentTask)
    → get task_id tasks ≡ some task
    → eligibility_failure now task ≡ some f
    → claim_agent_task_for_worker task_id now w n token tasks ≡ (ClaimResult.refused f, tasks)
unfolding claim_agent_task_for_worker
refused_unless f task_id now w n token task tasks there why = rw (there, why) refl

-- After a worker with a name that is not empty has claimed a task, any claim of that task before the
-- lease expires is refused as leased and changes nothing, whoever makes it.
pub claim_exclusive :
    (task_id : String) (now later : Instant) (w v : String) (n k : ℕ) (token fresh fresh' : String)
    (held : AgentTask) (expiry : Instant) (tasks tasks' : List AgentTask)
    → truthy w ≡ true
    → later < expiry
    → claim_agent_task_for_worker task_id now w n token tasks
      ≡ (ClaimResult.claimed held fresh expiry, tasks')
    → claim_agent_task_for_worker task_id later v k fresh' tasks'
      ≡ (ClaimResult.refused ClaimFailure.leased, tasks')
claim_exclusive task_id now later w v n k token fresh fresh' held expiry tasks tasks' named live
      got =
    let c =
      claim_agent_task_for_worker_lem task_id now w n token fresh held expiry tasks tasks' got in
    let after = c.after in
    refused_unless ClaimFailure.leased task_id later v k fresh' after tasks' c.found (
      held_failure later after w expiry (c.status ∙ c.was_eligible.approved) c.linked c.owner named
        c.expires live)
