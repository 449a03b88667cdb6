-- ===== src/Trust/Policy/Within.antt =====
-- What it means that an action lies within a lease, in the terms of trust_policy.py.
use aixion_control_tower.Prelude.{
  ◌+◌, ◌≤◌, ◌<◌, ◌≡◌, ◌≢◌, ◌⊎◌, true, false, Option, some, List, String, contains, option_eq,
  string_eq, is_set, or_empty, is_nil, All,
}
use aixion_control_tower.Prelude.Text.{Text}
use aixion_control_tower.AgentRun.Models.{Instant}
use aixion_control_tower.Trust.Models.{
  CapabilityLeaseMode, CapabilityLeaseStatus, CapabilityActionType, lease_status_eq, lease_mode_eq,
  action_type_eq, provider_eq,
}
use aixion_control_tower.Trust.Leases.{CapabilityScope, CapabilityLease, ProposedAction}
use aixion_control_tower.Trust.Policy.Paths.{path_allowed, command_allowed, domain_allowed}
use aixion_control_tower.Trust.Policy.Evaluate.{
  high_risk_actions, repository_actions, is_protected, LeaseReceipt, lease_receipt_payload,
}

-- The action names this lease, which is live, signed, and issued to its agent for its type.
pub record Holds (sign_payload : LeaseReceipt → String) (now : Instant) (action : ProposedAction)
    (lease : CapabilityLease) : Type 0 where
  pub identified : action.lease_id ≡ some lease.id
  pub active : lease.status ≡ CapabilityLeaseStatus.active
  pub live : now < lease.expires_at
  pub signed : sign_payload (lease_receipt_payload lease) ≡ lease.receipt_signature
  pub agent : (action.agent_id ≡ lease.agent_id) ⊎ (lease.agent_id ≡ some "")
  pub provider : action.provider ≡ lease.provider
  pub listed : contains action.action_type lease.scope.allowed_actions ≡ true

-- The action stays on the branch, the run and the task of the scope.
pub record Targets (action : ProposedAction) (scope : CapabilityScope) : Type 0 where
  pub repository :
      (contains action.action_type repository_actions ≡ false)
      ⊎ ((action.repository ≡ some scope.repository) × (action.branch ≡ some scope.branch))
  pub unprotected : is_protected action.branch ≡ false
  pub no_auto_merge : (action.auto_merge ≡ false) × (scope.allow_auto_merge ≡ false)
  pub run : (scope.run_id ≡ "") ⊎ (action.run_id ≡ some scope.run_id)
  pub task : (scope.task_id ≡ "") ⊎ (action.task_id ≡ some scope.task_id)

-- Paths, command and domains are all covered.
pub record Covers (shell_split : Text → Option (List Text)) (action : ProposedAction)
    (scope : CapabilityScope) : Type 0 where
  pub paths : All (λ path. path_allowed path scope.allowed_path_prefixes ≡ true) action.paths
  pub some_path :
      (action.action_type ≢ CapabilityActionType.modify_files) ⊎ (is_nil action.paths ≡ false)
  pub command :
      (is_set action.command ≡ false)
      ⊎ (command_allowed shell_split (or_empty action.command) scope.allowed_commands ≡ true)
  pub domains :
      All
        (λ domain. domain_allowed domain scope.allowed_network_domains ≡ true)
        action.network_domains

-- What the action is estimated to take fits into what the lease has left.
pub record Affords (action : ProposedAction) (lease : CapabilityLease) : Type 0 where
  pub runtime :
      lease.consumed_runtime_seconds + action.estimated_runtime_seconds
      ≤ lease.scope.max_runtime_seconds
  pub cost : lease.consumed_cost_usd + action.estimated_cost_usd ≤ lease.scope.max_cost_usd
  pub retries : action.retry_number ≤ lease.scope.max_retries
  pub pull_requests :
      (action.action_type ≢ CapabilityActionType.create_pull_request)
      ⊎ (lease.consumed_pull_requests < lease.scope.max_pull_requests)

-- The lease's mode leaves the action to the machine.
pub record Unattended (action : ProposedAction) (lease : CapabilityLease) : Type 0 where
  pub not_strict : lease.mode ≢ CapabilityLeaseMode.strict
  pub not_escalated :
      (lease.mode ≢ CapabilityLeaseMode.supervised)
      ⊎ (contains action.action_type high_risk_actions ≡ false)
