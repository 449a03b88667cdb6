-- ===== src/Trust/Models.antt =====
-- backend/app/trust_models.py: the enumerations of the trust plane.
use aixion_control_tower.Prelude.{ℕ, ◌≡◌, arith, Eq, enum_eq}

pub data CapabilityLeaseMode : Type 0 where
  strict bounded supervised : CapabilityLeaseMode

pub data CapabilityLeaseStatus : Type 0 where
  active expired revoked consumed : CapabilityLeaseStatus

pub data CapabilityActionType : Type 0 where
  read_repository create_branch modify_files run_command access_network create_pull_request deploy
        read_secret write_database custom :
      CapabilityActionType

-- `AgentProvider` of models.py
pub data AgentProvider : Type 0 where
  codex chatgpt claude cursor github_actions manual other : AgentProvider

pub data RiskLevel : Type 0 where
  low medium high critical blocked : RiskLevel

pub data PolicyDecisionType : Type 0 where
  allow require_approval block : PolicyDecisionType

pub data TrustEventType : Type 0 where
  attestation_recorded lease_issued lease_revoked lease_expired action_received action_allowed
        action_requires_approval action_blocked action_consumed credential_grant_issued
        credential_grant_revoked run_exception :
      TrustEventType

abbrev pub lease_status_index : CapabilityLeaseStatus → ℕ
lease_status_index CapabilityLeaseStatus.active = 0
lease_status_index CapabilityLeaseStatus.expired = 1
lease_status_index CapabilityLeaseStatus.revoked = 2
lease_status_index CapabilityLeaseStatus.consumed = 3

pub lease_status_index-injective :
    (a b : CapabilityLeaseStatus) → lease_status_index a ≡ lease_status_index b → a ≡ b
lease_status_index-injective a b h = ground arith

instance abbrev pub lease_status_eq : Eq CapabilityLeaseStatus
lease_status_eq = enum_eq lease_status_index lease_status_index-injective

abbrev pub lease_mode_index : CapabilityLeaseMode → ℕ
lease_mode_index CapabilityLeaseMode.strict = 0
lease_mode_index CapabilityLeaseMode.bounded = 1
lease_mode_index CapabilityLeaseMode.supervised = 2

pub lease_mode_index-injective :
    (a b : CapabilityLeaseMode) → lease_mode_index a ≡ lease_mode_index b → a ≡ b
lease_mode_index-injective a b h = ground arith

instance abbrev pub lease_mode_eq : Eq CapabilityLeaseMode
lease_mode_eq = enum_eq lease_mode_index lease_mode_index-injective

abbrev pub action_type_index : CapabilityActionType → ℕ
action_type_index CapabilityActionType.read_repository = 0
action_type_index CapabilityActionType.create_branch = 1
action_type_index CapabilityActionType.modify_files = 2
action_type_index CapabilityActionType.run_command = 3
action_type_index CapabilityActionType.access_network = 4
action_type_index CapabilityActionType.create_pull_request = 5
action_type_index CapabilityActionType.deploy = 6
action_type_index CapabilityActionType.read_secret = 7
action_type_index CapabilityActionType.write_database = 8
action_type_index CapabilityActionType.custom = 9

pub action_type_index-injective :
    (a b : CapabilityActionType) → action_type_index a ≡ action_type_index b → a ≡ b
action_type_index-injective a b h = ground arith

instance abbrev pub action_type_eq : Eq CapabilityActionType
action_type_eq = enum_eq action_type_index action_type_index-injective

abbrev pub provider_index : AgentProvider → ℕ
provider_index AgentProvider.codex = 0
provider_index AgentProvider.chatgpt = 1
provider_index AgentProvider.claude = 2
provider_index AgentProvider.cursor = 3
provider_index AgentProvider.github_actions = 4
provider_index AgentProvider.manual = 5
provider_index AgentProvider.other = 6

pub provider_index-injective : (a b : AgentProvider) → provider_index a ≡ provider_index b → a ≡ b
provider_index-injective a b h = ground arith

instance abbrev pub provider_eq : Eq AgentProvider
provider_eq = enum_eq provider_index provider_index-injective

abbrev pub decision_type_index : PolicyDecisionType → ℕ
decision_type_index PolicyDecisionType.allow = 0
decision_type_index PolicyDecisionType.require_approval = 1
decision_type_index PolicyDecisionType.block = 2

pub decision_type_index-injective :
    (a b : PolicyDecisionType) → decision_type_index a ≡ decision_type_index b → a ≡ b
decision_type_index-injective a b h = ground arith

instance abbrev pub decision_type_eq : Eq PolicyDecisionType
decision_type_eq = enum_eq decision_type_index decision_type_index-injective
