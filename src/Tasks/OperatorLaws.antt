-- ===== src/Tasks/OperatorLaws.antt =====
-- Retries and cancellations of tasks by an operator (agent_task_retry.py, agent_task_cancel.py).
use aixion_control_tower.Prelude.{
  ℕ, ◌+◌, ◌<◌, ◌≤◌, ◌≡◌, refl, ap, ◌∙◌, Bool, true, none, some, List, [], ◌∷◌, ◌++◌, String, arith,
  length, keep, eq_iff, eq_refl, string_eq, option_eq, is_set, Option-cases, Bool-cases, inl, inr,
  if◌then◌else◌,
}
use mathlib.Core.Path.{subst}
use aixion_control_tower.Prelude.Exec.{Result, ok, err, conflict, not_found}
use aixion_control_tower.Prelude.Dict.{get, get-put_self, key-get, put-fresh}
use aixion_control_tower.AgentRun.Models.{Instant}
use aixion_control_tower.Tasks.Models.{
  AgentTask, AgentTaskStatus, AgentTaskEvent, task_status_eq, task_keyed, task_event_keyed,
}
use aixion_control_tower.Tasks.Operator.{
  TaskStore, is_retry_request, count_retry_requests, retry_summary, append_retry_requested_event,
  retry_agent_task, retry_event, release_worker, retry_requested_operation,
}

keep-append :
    {A : Type 0} (p : A → Bool) (xs : List A) (x : A)
    → length (keep p (xs ++ x ∷ [])) ≡ (if p x then length (keep p xs) + 1 else length (keep p xs))
keep-append p [] x = ground arith
keep-append p (y ∷ xs) x = ground (arith, keep-append p xs x)

-- A retry that is granted: the task is free for a worker again, and one more retry is counted, within the limit.
pub record Retried (task_id : String) (max_retries : ℕ) (store : TaskStore)
    (outcome : Result (Unit {0}) × TaskStore) : Type 0 where
  pub returns : outcome.0 ≡ ok tt
  pub after : AgentTask
  pub found : get task_id outcome.1.tasks ≡ some after
  pub approved : after.status ≡ AgentTaskStatus.approved
  pub unowned : after.worker_lease_owner ≡ none
  pub counted :
      count_retry_requests task_id outcome.1.events ≡ count_retry_requests task_id store.events + 1
  pub within : count_retry_requests task_id outcome.1.events ≤ max_retries

-- When a task may be retried: it FAILED, is linked to an approval, and has retries left.
pub record MayRetryTask (max_retries : ℕ) (task : AgentTask) (events : List AgentTaskEvent)
    : Type 0 where
  pub failed : task.status ≡ AgentTaskStatus.failed
  pub approval : is_set task.approval_request_id ≡ true
  pub left : count_retry_requests task.id events < max_retries

allowed-MayRetryTask :
    (max_retries : ℕ) (task : AgentTask) (events : List AgentTaskEvent)
    → (retry_summary max_retries task events).retry_allowed ≡ true
    → MayRetryTask max_retries task events
unfolding retry_summary
allowed-MayRetryTask max_retries task events h = record {
  failed = ground (arith, eq_iff task.status AgentTaskStatus.failed);
  approval = ground (arith, h);
  left = ground (arith, h);
}

MayRetryTask-allowed :
    (max_retries : ℕ) (task : AgentTask) (events : List AgentTaskEvent)
    → MayRetryTask max_retries task events
    → (retry_summary max_retries task events).retry_allowed ≡ true
unfolding retry_summary
MayRetryTask-allowed max_retries task events m =
    ground (arith, m.failed, m.approval, m.left, eq_iff task.status AgentTaskStatus.failed)

granted :
    (id : String) (now : Instant) (actor : String) (max_retries : ℕ) (task : AgentTask)
    (store : TaskStore)
    → get id store.events ≡ none
    → (retry_summary max_retries task store.events).retry_allowed ≡ true
    → Retried task.id max_retries store
        (ok tt, append_retry_requested_event id now actor task store)
unfolding append_retry_requested_event
granted id now actor max_retries task store fresh h =
    let event = retry_event id now actor task in
    let freed = release_worker now AgentTaskStatus.approved task in
    let asked : is_retry_request task.id event ≡ true =
      ground (arith, eq_refl task.id, eq_refl (some retry_requested_operation)) in
    let counted =
      ap (λ es. length (keep (is_retry_request task.id) es)) (put-fresh event store.events fresh)
      ∙ keep-append (is_retry_request task.id) store.events event
      ∙ ap
          (λ b.
            if b
            then count_retry_requests task.id store.events + 1
            else count_retry_requests task.id store.events)
          asked in
    let left = (allowed-MayRetryTask max_retries task store.events h).left in
    record {
      returns = refl;
      after = freed;
      found = get-put_self freed task.id store.tasks refl;
      approved = refl;
      unowned = refl;
      counted = counted;
      within = omega (arith, counted, left);
    }

-- How a retry of the task `task_id` can end.
pub data RetryEnds (task_id : String) (max_retries : ℕ) (store : TaskStore)
    (outcome : Result (Unit {0}) × TaskStore) : Type 0 where
  is_retried :
      (task : AgentTask)
      → get task_id store.tasks ≡ some task
      → MayRetryTask max_retries task store.events
      → Retried task_id max_retries store outcome
      → RetryEnds task_id max_retries store outcome
  is_refused :
      (task : AgentTask)
      → get task_id store.tasks ≡ some task
      → ¬ MayRetryTask max_retries task store.events
      → outcome ≡ (err conflict, store)
      → RetryEnds task_id max_retries store outcome
  is_missing :
      get task_id store.tasks ≡ none
      → outcome ≡ (err not_found, store)
      → RetryEnds task_id max_retries store outcome

-- An operator's retry, under a fresh event id, of a task that FAILED, is linked to an approval and has
-- retries left, makes the task APPROVED, without a worker, and counts one more retry, within the limit.
-- Of any other task it raises a conflict, of a missing one that it is not found, and changes nothing.
pub retry_agent_task_lem :
    (id : String) (now : Instant) (actor : String) (max_retries : ℕ) (task_id : String)
    (store : TaskStore)
    → get id store.events ≡ none
    → RetryEnds task_id max_retries store (retry_agent_task id now actor max_retries task_id store)
unfolding retry_agent_task
retry_agent_task_lem id now actor max_retries task_id store fresh =
    elim (Option-cases (get task_id store.tasks)) [
      | inl nothing ↦ is_missing nothing (rw (retry_agent_task, nothing) refl)
      | inr (task, there) ↦
          elim (Bool-cases (retry_summary max_retries task store.events).retry_allowed) [
            | inl ok_retry ↦
                is_retried task there (allowed-MayRetryTask max_retries task store.events ok_retry)
                  (rw (retry_agent_task, there, ok_retry)
                    (subst
                      (λ i.
                        Retried i max_retries store
                          (ok tt, append_retry_requested_event id now actor task store))
                      (key-get task_id store.tasks task there)
                      (granted id now actor max_retries task store fresh ok_retry)))
            | inr refused ↦
                is_refused task there
                  (λ m.
                    let allowed = MayRetryTask-allowed max_retries task store.events m in
                    ground (arith, refused, allowed))
                  (rw (retry_agent_task, there, refused) refl)
          ]
    ]
