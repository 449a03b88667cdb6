-- ===== src/Trust/Leases.antt =====
-- backend/app/trust_models.py: the records of the capability plane. Money is a number of
-- hundredths of a cent where the source has a float.
use aixion_control_tower.Prelude.{ℕ, Bool, Option, List, String}
use aixion_control_tower.Prelude.Dict.{Keyed}
use aixion_control_tower.AgentRun.Models.{Instant, Evidence}
use aixion_control_tower.Trust.Models.{
  CapabilityLeaseMode, CapabilityLeaseStatus, CapabilityActionType, AgentProvider,
}

-- Of `metadata` the entries that the program reads: `str(metadata.get("run_id") or "")`, the same for
-- `task_id`, and `metadata.get` of `correlation_id` and of `request_fingerprint`.
pub record CapabilityScope : Type 0 where
  pub repository : String
  pub branch : String
  pub allowed_actions : List CapabilityActionType
  pub allowed_path_prefixes : List String
  pub allowed_commands : List String
  pub allowed_network_domains : List String
  pub max_runtime_seconds : ℕ
  pub max_cost_usd : ℕ
  pub max_retries : ℕ
  pub max_pull_requests : ℕ
  pub allow_auto_merge : Bool
  pub run_id : String
  pub task_id : String
  pub correlation_id : Option String
  pub request_fingerprint : Option String

pub record CapabilityLease : Type 0 where
  pub id : String
  pub approval_request_id : String
  pub approved_payload_hash : String
  pub agent_id : Option String
  pub provider : AgentProvider
  pub mode : CapabilityLeaseMode
  pub scope : CapabilityScope
  pub issued_by_user_id : String
  pub required_reviewer_count : ℕ
  pub prevent_self_approval : Bool
  pub status : CapabilityLeaseStatus
  pub issued_at : Instant
  pub expires_at : Instant
  pub revoked_at : Option Instant
  pub revoked_by_user_id : Option String
  pub revocation_reason : String
  pub receipt_nonce : String
  pub receipt_signature : String
  pub consumed_pull_requests : ℕ
  pub consumed_retries : ℕ
  pub consumed_runtime_seconds : ℕ
  pub consumed_cost_usd : ℕ
  pub created_at : Instant
  pub updated_at : Instant

-- Of `metadata` the program reads `bool(metadata.get("auto_merge"))` and
-- `str(metadata.get("step_id") or "")`.
pub record ProposedAction : Type 0 where
  pub id : String
  pub lease_id : Option String
  pub provider : AgentProvider
  pub agent_id : Option String
  pub run_id : Option String
  pub task_id : Option String
  pub project_id : Option String
  pub action_type : CapabilityActionType
  pub repository : Option String
  pub branch : Option String
  pub paths : List String
  pub command : Option String
  pub network_domains : List String
  pub estimated_runtime_seconds : ℕ
  pub estimated_cost_usd : ℕ
  pub retry_number : ℕ
  pub auto_merge : Bool
  pub step_id : String
  pub created_at : Instant

pub record ActionConsumption : Type 0 where
  pub actual_runtime_seconds : ℕ
  pub actual_cost_usd : ℕ
  pub pull_requests_created : ℕ
  pub retry_consumed : Bool
  pub output_reference : Option String
  pub evidence : Evidence

instance abbrev pub lease_keyed : Keyed CapabilityLease
lease_keyed = record { key = λ l. l.id }

instance abbrev pub action_keyed : Keyed ProposedAction
action_keyed = record { key = λ a. a.id }
