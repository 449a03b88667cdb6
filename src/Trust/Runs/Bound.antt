-- ===== src/Trust/Runs/Bound.antt =====
-- What it means that a lease is valid for a run (agent_run_trust.py: _validate_lease_for_run and
-- attach_capability_lease).
use aixion_control_tower.Prelude.{
  ◌+◌, ◌≤◌, ◌≡◌, ◌⊎◌, refl, sym, true, false, ◌||◌, Option, none, some, List, [], ◌∷◌, ◌++◌, String,
  arith, inl, inr, ◌==◌, or_empty, is_set, is_some, contains, eq_iff, string_eq, option_eq,
  Bool-cases,
}
use aixion_control_tower.Prelude.Lists.{is_nil, any, All}
use aixion_control_tower.Prelude.Exec.{ok}
use aixion_control_tower.Prelude.Dict.{get}
use aixion_control_tower.AgentRun.Models.{Instant, AgentRun, AgentRunStatus, run_status_eq}
use aixion_control_tower.AgentRun.StateMachine.Runs.{terminal_run_statuses}
use aixion_control_tower.AgentRun.Supervisor.State.{step_keyed}
use aixion_control_tower.Approvals.Models.{ApprovalRequest, approval_keyed}
use aixion_control_tower.Tasks.Models.{AgentTask, task_keyed}
use aixion_control_tower.Trust.Models.{CapabilityLeaseStatus, lease_status_eq, provider_eq}
use aixion_control_tower.Trust.Leases.{CapabilityLease, lease_keyed}
use aixion_control_tower.Trust.State.{Outside, TrustStore}
use aixion_control_tower.Trust.Service.Lifecycle.{refresh_lease_status}
use aixion_control_tower.Trust.Runs.Store.{append_run_event}
use aixion_control_tower.Trust.Runs.Attach.{
  Objection, objections, run_objections, task_objections, approval_objections, lease_reasons,
  attach_valid, attach_found, is_running, has_attempted, attach_capability_lease,
}

-- The lease is ACTIVE and made for the run: its approval, still sealed with the same payload, its
-- task, repository and branch, the agent of the task if the lease names one, with retries for all the
-- attempts of a step.
pub record BoundTo (run : AgentRun) (lease : CapabilityLease) (s : TrustStore) : Type 0 where
  pub active : lease.status ≡ CapabilityLeaseStatus.active
  pub approval_id : run.approval_request_id ≡ some lease.approval_request_id
  pub repository : run.repository ≡ some lease.scope.repository
  pub attempts : run.max_attempts_per_step ≤ lease.scope.max_retries + 1
  pub task : AgentTask
  pub task_found : get run.task_id s.tasks ≡ some task
  pub provider : lease.provider ≡ task.provider
  pub agent : (is_set lease.agent_id ≡ false) ⊎ (lease.agent_id ≡ task.external_agent_id)
  pub branch : task.branch_preference ≡ some lease.scope.branch
  pub approval : ApprovalRequest
  pub approval_found : get (or_empty run.approval_request_id) s.approvals ≡ some approval
  pub seal : approval.approved_payload_hash ≡ some lease.approved_payload_hash

objections-nil : (os : List Objection) → is_nil (objections os) ≡ true → All (λ c. c.0 ≡ false) os
objections-nil [] h = tt
objections-nil ((c, r) ∷ rest) h = ground (arith, objections-nil rest)

append-nil :
    (xs ys : List String) → is_nil (xs ++ ys) ≡ true → (is_nil xs ≡ true) × (is_nil ys ≡ true)
append-nil [] ys h = (refl, h)
append-nil (x ∷ xs) ys h = ground arith

bound_given :
    (task : Option AgentTask) (approval : Option ApprovalRequest) (run : AgentRun)
    (lease : CapabilityLease) (s : TrustStore)
    → get run.task_id s.tasks ≡ task
    → get (or_empty run.approval_request_id) s.approvals ≡ approval
    → All (λ c. c.0 ≡ false) (run_objections run lease (is_some task) (is_some approval))
    → All (λ c. c.0 ≡ false) (task_objections task lease)
    → All (λ c. c.0 ≡ false) (approval_objections approval lease)
    → BoundTo run lease s
bound_given none approval run lease s t a (missing, _) of_task of_approval = ground (arith, missing)
bound_given (some task) none run lease s t a (_, (missing, _)) of_task of_approval =
    ground (arith, missing)
bound_given (some task) (some approval) run lease s t a of_run (provider, (agent, (branch, _)))
      (seal, _) =
    let (_, (_, (active, (id, (repository, (attempts, _)))))) = of_run in
    record {
      active = ground (arith, active, eq_iff lease.status CapabilityLeaseStatus.active);
      approval_id =
          ground (arith, id, eq_iff (some lease.approval_request_id) run.approval_request_id);
      repository = ground (arith, repository, eq_iff (some lease.scope.repository) run.repository);
      attempts = ground (arith, attempts);
      task = task;
      task_found = t;
      provider = ground (arith, provider, eq_iff lease.provider task.provider);
      agent = elim (Bool-cases (is_set lease.agent_id)) [
        | inl named ↦
            inr (ground (arith, agent, named, eq_iff lease.agent_id task.external_agent_id))
        | inr nobody ↦ inl nobody
      ];
      branch = ground (arith, branch, eq_iff (some lease.scope.branch) task.branch_preference);
      approval = approval;
      approval_found = a;
      seal =
          ground
            (arith, seal, eq_iff (some lease.approved_payload_hash) approval.approved_payload_hash);
    }

pub lease_reasons-BoundTo :
    (run : AgentRun) (lease : CapabilityLease) (s : TrustStore)
    → is_nil (lease_reasons run lease s) ≡ true
    → BoundTo run lease s
unfolding lease_reasons
lease_reasons-BoundTo run lease s h =
    let task = get run.task_id s.tasks in
    let approval = get (or_empty run.approval_request_id) s.approvals in
    let of_run = run_objections run lease (is_some task) (is_some approval) in
    let of_task = task_objections task lease in
    let of_approval = approval_objections approval lease in
    let (both, c) =
      append-nil (objections of_run ++ objections of_task) (objections of_approval) h in
    let (a, b) = append-nil (objections of_run) (objections of_task) both in
    bound_given task approval run lease s refl refl (objections-nil of_run a)
      (objections-nil of_task b) (objections-nil of_approval c)

-- A lease that is attached: the run had none, was free to take it and had attempted no side effect, the
-- lease, once refreshed, is made for the run, and nothing else of the run changes.
pub record Attached (o : Outside) (now : Instant) (run : AgentRun) (lease_id : String)
    (s : TrustStore) (after : AgentRun) : Type 0 where
  pub lease : CapabilityLease
  pub found : get lease_id s.leases ≡ some lease
  pub valid :
      BoundTo run (refresh_lease_status o now lease s).0 (refresh_lease_status o now lease s).1
  pub attached : after ≡ record run {
    capability_lease_id = some (refresh_lease_status o now lease s).0.id;
    updated_at = now;
  }
  pub unbound : is_set run.capability_lease_id ≡ false
  pub still_open : contains run.status terminal_run_statuses ≡ false
  pub unleased : (is_set run.lease_owner || is_set run.lease_token) ≡ false
  pub untried : any (has_attempted run.id) s.steps ≡ false

module _ (o : Outside) where
  attach_valid-bound :
      (now : Instant) (run after : AgentRun) (actor : String) (reasons : List String)
      (lease : CapabilityLease) (u t : TrustStore)
      → attach_valid now run actor ((reasons, lease), u) ≡ (ok after, t)
      → (is_nil reasons ≡ true)
        × (after ≡ record run { capability_lease_id = some lease.id; updated_at = now })
  unfolding append_run_event
  attach_valid-bound now run after actor reasons lease u t h = elim (Bool-cases (is_nil reasons)) [
    | inl valid ↦
        let its : record run { capability_lease_id = some lease.id; updated_at = now } ≡ after =
          ground (arith, rw valid at h) in
        (valid, sym its)
    | inr invalid ↦ ground (arith, rw invalid at h)
  ]

  found_lease :
      (found : Option CapabilityLease) (now : Instant) (run after : AgentRun)
      (lease_id actor : String) (s t : TrustStore)
      → get lease_id s.leases ≡ found
      → is_set run.capability_lease_id ≡ false
      → contains run.status terminal_run_statuses ≡ false
      → (is_set run.lease_owner || is_set run.lease_token) ≡ false
      → any (has_attempted run.id) s.steps ≡ false
      → attach_found found o now run actor s ≡ (ok after, t)
      → Attached o now run lease_id s after
  found_lease none now run after lease_id actor s t there unset still free untried h =
      ground (arith, h)
  found_lease (some lease) now run after lease_id actor s t there unset still free untried h =
      let (refreshed, u) = refresh_lease_status o now lease s in
      let (valid, bound) =
        attach_valid-bound now run after actor (lease_reasons run refreshed u) refreshed u t h in
      record {
        lease = lease;
        found = there;
        valid = lease_reasons-BoundTo run refreshed u valid;
        attached = bound;
        unbound = unset;
        still_open = still;
        unleased = free;
        untried = untried;
      }

  -- A call that succeeds either attaches the lease to a run that had none and is not terminal, if the
  -- lease is ACTIVE and made for the run, before the first attempt of a step with side effects, while no
  -- worker holds the run; or the run had this very lease already, and nothing changes.
  pub attach_capability_lease-Attached :
      (now : Instant) (run after : AgentRun) (lease_id actor : String) (s t : TrustStore)
      → attach_capability_lease o now run lease_id actor s ≡ (ok after, t)
      → Attached o now run lease_id s after
        ⊎ ((run.capability_lease_id ≡ some lease_id) × (after ≡ run) × (t ≡ s))
  unfolding attach_capability_lease
  attach_capability_lease-Attached now run after lease_id actor s t h =
      let closed =
        contains run.status terminal_run_statuses || (run.status == AgentRunStatus.evaluating) in
      let held = is_set run.lease_owner || is_set run.lease_token in
      let busy = is_running (get (or_empty run.current_step_id) s.steps) in
      let tried = any (has_attempted run.id) s.steps in
      elim (Bool-cases (is_set run.capability_lease_id)) [
        | inl has_lease ↦
            let same : (run.capability_lease_id == some lease_id) ≡ true =
              ground (arith, rw has_lease at h) in
            let kept = rw (has_lease, same) at h in
            inr (
              (eq_iff run.capability_lease_id (some lease_id)).0 same,
              ground (arith, kept),
              ground (arith, kept),
            )
        | inr unset ↦
            let h1 = rw unset at h in
            let is_open : closed ≡ false = ground (arith, h1) in
            let h2 = rw is_open at h1 in
            let is_free : held ≡ false = ground (arith, h2) in
            let h3 = rw is_free at h2 in
            let is_idle : busy ≡ false = ground (arith, h3) in
            let h4 = rw is_idle at h3 in
            let is_untried : tried ≡ false = ground (arith, h4) in
            inl (
              found_lease (get lease_id s.leases) now run after lease_id actor s t refl unset
                (ground (arith, is_open)) is_free is_untried (rw is_untried at h4))
      ]
