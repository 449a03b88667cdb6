-- ===== src/Trust/Service/Fixtures.antt =====
-- A small trust plane for the concrete runs: one approval, one task, one lease, with ids that are
-- counted in strokes.
use aixion_control_tower.Prelude.{ℕ, zero, suc, true, false, none, some, [], ◌∷◌, String}
use aixion_control_tower.Approvals.Models.{ApprovalRequest, ApprovalStatus, approval_keyed}
use aixion_control_tower.Approvals.Fixtures.{login_approval}
use aixion_control_tower.Tasks.Fixtures.{login_task}
use aixion_control_tower.Trust.Models.{
  CapabilityLeaseMode, AgentProvider, PolicyDecisionType, RiskLevel,
}
use aixion_control_tower.Trust.Leases.{ActionConsumption}
use aixion_control_tower.Trust.Policy.Evaluate.{within_lease}
use aixion_control_tower.Trust.Policy.Fixtures.{source_lease, source_scope, source_change}
use aixion_control_tower.Trust.Records.{AuthUser, UserRole, CapabilityLeaseCreate, RecordedDecision}
use aixion_control_tower.Trust.State.{Outside, TrustStore}

abbrev pub strokes : ℕ → String
strokes zero = ""
strokes (suc n) = String.◌∷◌ "|" (strokes n)

abbrev pub plain : Outside
plain = record {
  new_id = λ prefix n. strokes n;
  new_nonce = λ n. strokes n;
  new_token = λ n. strokes n;
  event_hash = λ material. material.call.actor;
  request_hash = λ payload. payload.approval_request_id;
  action_hash = λ action. action.id;
  evidence_hash = λ evidence. "evidence";
  action_id = λ material. material.step_id;
  token_hash = λ token. token;
  sign_receipt = λ receipt. receipt.receipt_nonce;
  sign_attestation = λ material. material.reviewer_user_id;
  sign_authorization = λ material. material.reviewer_user_id;
  shell_split = λ text. some (text ∷ []);
}

abbrev pub owner : AuthUser
owner = record {
  id = "owner";
  email = "owner@example.com";
  display_name = "Owner";
  role = UserRole.owner;
  email_verified = true;
}

abbrev pub approved_login : ApprovalRequest
approved_login = record login_approval {
  status = ApprovalStatus.approved;
  approved_payload_hash = some "sha256:1";
  approved_by_user_id = some "reviewer";
}

abbrev pub plane : TrustStore
plane = record {
  approvals = approved_login ∷ [];
  tasks = login_task ∷ [];
  external_agents = [];
  runs = [];
  steps = [];
  run_events = [];
  attestations = [];
  leases = [];
  actions = [];
  decisions = [];
  consumptions = [];
  authorizations = [];
  grants = [];
  events = [];
  drawn = 0;
}

abbrev pub request : CapabilityLeaseCreate
request = record {
  approval_request_id = "approval_1";
  agent_id = none;
  provider = AgentProvider.claude;
  mode = CapabilityLeaseMode.bounded;
  scope = record source_scope { allowed_path_prefixes = "src/app.py" ∷ [] };
  expires_in_seconds = 900;
  required_reviewer_count = 1;
  prevent_self_approval = true;
}

abbrev pub allowed : RecordedDecision
allowed = record {
  id = "decision_1";
  verdict = record {
    proposed_action_id = "action_1";
    lease_id = some "lease_1";
    decision = PolicyDecisionType.allow;
    risk_level = RiskLevel.low;
    reasons = within_lease ∷ [];
  };
  evaluated_policy_version = "trust-policy-v1";
  evaluated_at = 5;
}

abbrev pub used : ActionConsumption
used = record {
  actual_runtime_seconds = 60;
  actual_cost_usd = 10;
  pull_requests_created = 0;
  retry_consumed = false;
  output_reference = none;
  evidence = [];
}

abbrev pub busy_plane : TrustStore
busy_plane = record plane {
  leases = source_lease ∷ [];
  actions = source_change ∷ [];
  decisions = allowed ∷ [];
}
