-- ===== src/Trust/Policy/Evaluate.antt =====
-- `evaluate_proposed_action` of trust_policy.py. The signature over a lease's receipt and
-- `shlex.split` are parameters; a reason is a value instead of its wording.
use aixion_control_tower.Prelude.{
  ℕ, ◌+◌, Bool, ◌&&◌, ◌||◌, not, Option, none, some, List, [], ◌∷◌, ◌++◌, String, leb, ltb, ◌==◌,
  ◌!=◌, contains, option_eq, string_eq, truthy, is_set, is_some, or_empty, any, keep, is_nil,
  if◌then◌else◌,
}
use aixion_control_tower.Prelude.Text.{Text, codes, lower, same}
use aixion_control_tower.AgentRun.Models.{Instant}
use aixion_control_tower.Trust.Models.{
  CapabilityLeaseMode, CapabilityLeaseStatus, CapabilityActionType, AgentProvider, RiskLevel,
  PolicyDecisionType, lease_status_eq, lease_mode_eq, action_type_eq, provider_eq,
}
use aixion_control_tower.Trust.Models.{
  CapabilityActionType.read_repository, CapabilityActionType.create_branch,
  CapabilityActionType.modify_files, CapabilityActionType.run_command,
  CapabilityActionType.access_network, CapabilityActionType.create_pull_request,
  CapabilityActionType.deploy, CapabilityActionType.read_secret,
  CapabilityActionType.write_database,
}
use aixion_control_tower.Trust.Leases.{CapabilityScope, CapabilityLease, ProposedAction}
use aixion_control_tower.Trust.Policy.Paths.{path_allowed, command_allowed, domain_allowed}

-- `HIGH_RISK_ACTIONS`
abbrev pub high_risk_actions : List CapabilityActionType
high_risk_actions = deploy ∷ read_secret ∷ write_database ∷ []

-- `REPOSITORY_ACTIONS`
abbrev pub repository_actions : List CapabilityActionType
repository_actions =
    read_repository ∷ create_branch ∷ modify_files ∷ run_command ∷ access_network
    ∷ create_pull_request ∷ []

-- `PROTECTED_BRANCHES`
abbrev pub protected_branches : List String
protected_branches = "main" ∷ "master" ∷ "refs/heads/main" ∷ "refs/heads/master" ∷ []

abbrev pub is_protected : Option String → Bool
is_protected branch =
    any (λ name. same (lower (codes (or_empty branch))) (codes name)) protected_branches

-- `lease_receipt_payload`: what the receipt's signature covers.
pub record LeaseReceipt : Type 0 where
  pub id : String
  pub approval_request_id : String
  pub approved_payload_hash : String
  pub agent_id : Option String
  pub provider : AgentProvider
  pub mode : CapabilityLeaseMode
  pub scope : CapabilityScope
  pub issued_by_user_id : String
  pub required_reviewer_count : ℕ
  pub prevent_self_approval : Bool
  pub issued_at : Instant
  pub expires_at : Instant
  pub receipt_nonce : String

abbrev pub lease_receipt_payload : CapabilityLease → LeaseReceipt
lease_receipt_payload lease = record {
  id = lease.id;
  approval_request_id = lease.approval_request_id;
  approved_payload_hash = lease.approved_payload_hash;
  agent_id = lease.agent_id;
  provider = lease.provider;
  mode = lease.mode;
  scope = lease.scope;
  issued_by_user_id = lease.issued_by_user_id;
  required_reviewer_count = lease.required_reviewer_count;
  prevent_self_approval = lease.prevent_self_approval;
  issued_at = lease.issued_at;
  expires_at = lease.expires_at;
  receipt_nonce = lease.receipt_nonce;
}

-- The `reasons` of a decision.
pub data PolicyReason : Type 0 where
  lease_mismatch not_active lease_expired signature_invalid agent_mismatch unbound_lease
        provider_mismatch action_outside repository_mismatch branch_mismatch protected_branch
        auto_merge_prohibited run_mismatch task_mismatch no_paths no_command command_outside
        no_domains runtime_exceeded cost_exceeded retries_exceeded pull_requests_exhausted
        lease_required no_lease strict_mode supervised_mode within_lease human_allowed
        human_denied :
      PolicyReason
  paths_outside domains_outside : List String → PolicyReason

-- `PolicyDecision`, without its id, its time and the fixed obligations.
pub record PolicyDecision : Type 0 where
  pub proposed_action_id : String
  pub lease_id : Option String
  pub decision : PolicyDecisionType
  pub risk_level : RiskLevel
  pub reasons : List PolicyReason

-- `_decision`
abbrev pub decide :
    ProposedAction → PolicyDecisionType → RiskLevel → List PolicyReason → PolicyDecision
decide action decision risk reasons = record {
  proposed_action_id = action.id;
  lease_id = action.lease_id;
  decision = decision;
  risk_level = risk;
  reasons = reasons;
}

-- A condition of the policy with the reason that it appends.
abbrev pub Check : Type 0
Check = Bool × PolicyReason

-- `if condition: reasons.append(reason)`, one after the other
abbrev pub raised : List Check → List PolicyReason
raised [] = []
raised ((condition, reason) ∷ rest) =
    let later = raised rest in if condition then reason ∷ later else later

-- The conditions up to the action's type.
abbrev pub lease_checks :
    (LeaseReceipt → String) → Instant → ProposedAction → CapabilityLease → List Check
lease_checks sign_payload now action lease =
    (some lease.id != action.lease_id, lease_mismatch)
    ∷ (lease.status != CapabilityLeaseStatus.active, not_active)
    ∷ (leb lease.expires_at now, lease_expired)
    ∷ (sign_payload (lease_receipt_payload lease) != lease.receipt_signature, signature_invalid)
    ∷ (is_set lease.agent_id && (action.agent_id != lease.agent_id), agent_mismatch)
    ∷ (not (is_some lease.agent_id) && is_some action.agent_id, unbound_lease)
    ∷ (action.provider != lease.provider, provider_mismatch)
    ∷ (not (contains action.action_type lease.scope.allowed_actions), action_outside)
    ∷ []

-- The conditions on repository, branch, run and task.
abbrev pub target_checks : ProposedAction → CapabilityScope → List Check
target_checks action scope =
    let on_repository = contains action.action_type repository_actions in
    (on_repository && (action.repository != some scope.repository), repository_mismatch)
    ∷ (on_repository && (action.branch != some scope.branch), branch_mismatch)
    ∷ (is_protected action.branch, protected_branch)
    ∷ (action.auto_merge || scope.allow_auto_merge, auto_merge_prohibited)
    ∷ (truthy scope.run_id && (action.run_id != some scope.run_id), run_mismatch)
    ∷ (truthy scope.task_id && (action.task_id != some scope.task_id), task_mismatch)
    ∷ []

-- The conditions on paths, command and domains.
abbrev pub resource_checks :
    (Text → Option (List Text)) → ProposedAction → CapabilityScope → List Check
resource_checks shell_split action scope =
    let invalid_paths =
      keep (λ path. not (path_allowed path scope.allowed_path_prefixes)) action.paths in
    let invalid_domains =
      keep (λ domain. not (domain_allowed domain scope.allowed_network_domains))
        action.network_domains in
    ((action.action_type == modify_files) && is_nil action.paths, no_paths)
    ∷ (not (is_nil invalid_paths), paths_outside invalid_paths)
    ∷ ((action.action_type == run_command) && not (is_set action.command), no_command)
    ∷ (
      is_set action.command
          && not (command_allowed shell_split (or_empty action.command) scope.allowed_commands),
      command_outside,
    )
    ∷ ((action.action_type == access_network) && is_nil action.network_domains, no_domains)
    ∷ (not (is_nil invalid_domains), domains_outside invalid_domains)
    ∷ []

-- The conditions on the budgets.
abbrev pub budget_checks : ProposedAction → CapabilityLease → List Check
budget_checks action lease =
    let scope = lease.scope in
    (
      ltb scope.max_runtime_seconds
          (lease.consumed_runtime_seconds + action.estimated_runtime_seconds),
      runtime_exceeded,
    )
    ∷ (ltb scope.max_cost_usd (lease.consumed_cost_usd + action.estimated_cost_usd), cost_exceeded)
    ∷ (ltb scope.max_retries action.retry_number, retries_exceeded)
    ∷ (
      (action.action_type == create_pull_request)
          && leb scope.max_pull_requests lease.consumed_pull_requests,
      pull_requests_exhausted,
    )
    ∷ []

-- The decision under a lease, given all the reasons against the action.
abbrev pub decide_under : ProposedAction → CapabilityLease → List PolicyReason → PolicyDecision
decide_under action lease reasons =
    let high_risk = contains action.action_type high_risk_actions in
    if not (is_nil reasons)
    then decide action PolicyDecisionType.block RiskLevel.critical reasons
    else if lease.mode == CapabilityLeaseMode.strict
    then decide action PolicyDecisionType.require_approval RiskLevel.high (strict_mode ∷ [])
    else if (lease.mode == CapabilityLeaseMode.supervised) && high_risk
    then decide action PolicyDecisionType.require_approval RiskLevel.critical (supervised_mode ∷ [])
    else decide action PolicyDecisionType.allow
        (if high_risk then RiskLevel.high else RiskLevel.low) (within_lease ∷ [])

module _ (sign_payload : LeaseReceipt → String) (shell_split : Text → Option (List Text)) where
  unfoldable pub block_reasons : Instant → ProposedAction → CapabilityLease → List PolicyReason
  block_reasons now action lease =
      raised (lease_checks sign_payload now action lease)
      ++ raised (target_checks action lease.scope)
      ++ raised (resource_checks shell_split action lease.scope)
      ++ raised (budget_checks action lease)

  unfoldable pub evaluate_proposed_action :
      Instant → ProposedAction → Option CapabilityLease → PolicyDecision
  unfolding block_reasons
  evaluate_proposed_action now action none =
      if contains action.action_type high_risk_actions
      then decide action PolicyDecisionType.block RiskLevel.critical (lease_required ∷ [])
      else decide action PolicyDecisionType.require_approval RiskLevel.high (no_lease ∷ [])
  evaluate_proposed_action now action (some lease) =
      decide_under action lease (block_reasons now action lease)
