-- ===== src/Trust/Policy/Fixtures.antt =====
-- A lease and an action for the concrete runs.
use aixion_control_tower.Prelude.{true, false, none, some, [], ◌∷◌}
use aixion_control_tower.Trust.Models.{
  CapabilityLeaseMode, CapabilityLeaseStatus, CapabilityActionType, AgentProvider,
}
use aixion_control_tower.Trust.Leases.{CapabilityScope, CapabilityLease, ProposedAction}

abbrev pub source_scope : CapabilityScope
source_scope = record {
  repository = "owner/name";
  branch = "feature/x";
  allowed_actions = CapabilityActionType.modify_files ∷ [];
  allowed_path_prefixes = "src" ∷ [];
  allowed_commands = [];
  allowed_network_domains = [];
  max_runtime_seconds = 900;
  max_cost_usd = 50000;
  max_retries = 3;
  max_pull_requests = 1;
  allow_auto_merge = false;
  run_id = "run_1";
  task_id = "";
  correlation_id = none;
  request_fingerprint = none;
}

abbrev pub source_lease : CapabilityLease
source_lease = record {
  id = "lease_1";
  approval_request_id = "approval_1";
  approved_payload_hash = "hash";
  agent_id = none;
  provider = AgentProvider.claude;
  mode = CapabilityLeaseMode.bounded;
  scope = source_scope;
  issued_by_user_id = "user_1";
  required_reviewer_count = 1;
  prevent_self_approval = true;
  status = CapabilityLeaseStatus.active;
  issued_at = 0;
  expires_at = 1000;
  revoked_at = none;
  revoked_by_user_id = none;
  revocation_reason = "";
  receipt_nonce = "nonce";
  receipt_signature = "nonce";
  consumed_pull_requests = 0;
  consumed_retries = 0;
  consumed_runtime_seconds = 100;
  consumed_cost_usd = 0;
  created_at = 0;
  updated_at = 0;
}

abbrev pub source_change : ProposedAction
source_change = record {
  id = "action_1";
  lease_id = some "lease_1";
  provider = AgentProvider.claude;
  agent_id = none;
  run_id = some "run_1";
  task_id = none;
  project_id = none;
  action_type = CapabilityActionType.modify_files;
  repository = some "owner/name";
  branch = some "feature/x";
  paths = "src/app.py" ∷ [];
  command = none;
  network_domains = [];
  estimated_runtime_seconds = 60;
  estimated_cost_usd = 100;
  retry_number = 0;
  auto_merge = false;
  step_id = "";
  created_at = 5;
}
