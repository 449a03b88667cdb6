-- ===== src/Trust/Records.antt =====
-- backend/app/trust_models.py, trust_action_authorization_models.py and models.py: the records of
-- reviews, decisions and credentials.
use aixion_control_tower.Prelude.{ℕ, ◌≡◌, Bool, Option, List, String, arith, Eq, enum_eq}
use aixion_control_tower.Prelude.Dict.{Keyed}
use aixion_control_tower.AgentRun.Models.{Instant}
use aixion_control_tower.Trust.Models.{CapabilityLeaseMode, AgentProvider}
use aixion_control_tower.Trust.Leases.{CapabilityScope, ActionConsumption}
use aixion_control_tower.Trust.Policy.Evaluate.{PolicyDecision}

pub data UserRole : Type 0 where
  owner maintainer reviewer : UserRole

abbrev pub user_role_index : UserRole → ℕ
user_role_index UserRole.owner = 0
user_role_index UserRole.maintainer = 1
user_role_index UserRole.reviewer = 2

pub user_role_index-injective : (a b : UserRole) → user_role_index a ≡ user_role_index b → a ≡ b
user_role_index-injective a b h = ground arith

instance abbrev pub user_role_eq : Eq UserRole
user_role_eq = enum_eq user_role_index user_role_index-injective

pub data ReviewerAttestationDecision : Type 0 where
  approve deny : ReviewerAttestationDecision

abbrev pub attestation_decision_index : ReviewerAttestationDecision → ℕ
attestation_decision_index ReviewerAttestationDecision.approve = 0
attestation_decision_index ReviewerAttestationDecision.deny = 1

pub attestation_decision_index-injective :
    (a b : ReviewerAttestationDecision)
    → attestation_decision_index a ≡ attestation_decision_index b
    → a ≡ b
attestation_decision_index-injective a b h = ground arith

instance abbrev pub attestation_decision_eq : Eq ReviewerAttestationDecision
attestation_decision_eq = enum_eq attestation_decision_index attestation_decision_index-injective

pub data ActionAuthorizationDecision : Type 0 where
  allow block : ActionAuthorizationDecision

abbrev pub authorization_decision_index : ActionAuthorizationDecision → ℕ
authorization_decision_index ActionAuthorizationDecision.allow = 0
authorization_decision_index ActionAuthorizationDecision.block = 1

pub authorization_decision_index-injective :
    (a b : ActionAuthorizationDecision)
    → authorization_decision_index a ≡ authorization_decision_index b
    → a ≡ b
authorization_decision_index-injective a b h = ground arith

instance abbrev pub authorization_decision_eq : Eq ActionAuthorizationDecision
authorization_decision_eq =
    enum_eq authorization_decision_index authorization_decision_index-injective

pub data CredentialGrantType : Type 0 where
  github_app_installation oidc_federation internal_capability_token : CredentialGrantType

abbrev pub grant_type_index : CredentialGrantType → ℕ
grant_type_index CredentialGrantType.github_app_installation = 0
grant_type_index CredentialGrantType.oidc_federation = 1
grant_type_index CredentialGrantType.internal_capability_token = 2

pub grant_type_index-injective :
    (a b : CredentialGrantType) → grant_type_index a ≡ grant_type_index b → a ≡ b
grant_type_index-injective a b h = ground arith

instance abbrev pub grant_type_eq : Eq CredentialGrantType
grant_type_eq = enum_eq grant_type_index grant_type_index-injective

-- `AuthUser`
pub record AuthUser : Type 0 where
  pub id : String
  pub email : String
  pub display_name : String
  pub role : UserRole
  pub email_verified : Bool

pub record CapabilityLeaseCreate : Type 0 where
  pub approval_request_id : String
  pub agent_id : Option String
  pub provider : AgentProvider
  pub mode : CapabilityLeaseMode
  pub scope : CapabilityScope
  pub expires_in_seconds : ℕ
  pub required_reviewer_count : ℕ
  pub prevent_self_approval : Bool

pub record ReviewerAttestationCreate : Type 0 where
  pub approval_request_id : String
  pub decision : ReviewerAttestationDecision
  pub reason : String

-- What the signature of an attestation covers: `material` of `record_reviewer_attestation`.
pub record AttestationMaterial : Type 0 where
  pub approval_request_id : String
  pub approval_payload_hash : String
  pub reviewer_user_id : String
  pub reviewer_role : UserRole
  pub decision : ReviewerAttestationDecision
  pub reason : String

-- `ReviewerAttestation`: the signed fields are those of `material`.
pub record ReviewerAttestation : Type 0 where
  pub id : String
  pub material : AttestationMaterial
  pub signature : String
  pub created_at : Instant

-- `PolicyDecision`, with what `evaluate_proposed_action` decides in `verdict`.
pub record RecordedDecision : Type 0 where
  pub id : String
  pub verdict : PolicyDecision
  pub evaluated_policy_version : String
  pub evaluated_at : Instant

-- An entry of `store.action_consumptions`.
pub record RecordedConsumption : Type 0 where
  pub action_id : String
  pub consumption : ActionConsumption

-- `CredentialGrant`; of `metadata` the three entries that the program writes.
pub record CredentialGrant : Type 0 where
  pub id : String
  pub lease_id : String
  pub grant_type : CredentialGrantType
  pub audience : String
  pub subject : String
  pub scope : List String
  pub issued_at : Instant
  pub expires_at : Instant
  pub revoked : Bool
  pub revoked_at : Option Instant
  pub token_hash : String
  pub issued_by_user_id : String
  pub revoked_by_user_id : Option String
  pub revocation_reason : Option String

pub record CredentialGrantCreate : Type 0 where
  pub lease_id : String
  pub grant_type : CredentialGrantType
  pub audience : String
  pub subject : String
  pub scope : List String
  pub expires_in_seconds : ℕ

pub record CredentialGrantResponse : Type 0 where
  pub grant : CredentialGrant
  pub bearer_token : String

pub record ActionAuthorizationCreate : Type 0 where
  pub decision : ActionAuthorizationDecision
  pub reason : String

-- `authorization_signature_payload`
pub record AuthorizationMaterial : Type 0 where
  pub action_id : String
  pub action_payload_hash : String
  pub policy_decision_id : String
  pub reviewer_user_id : String
  pub reviewer_role : UserRole
  pub decision : ActionAuthorizationDecision
  pub reason : String

-- `ActionAuthorization`: the signed fields are those of `material`.
pub record ActionAuthorization : Type 0 where
  pub id : String
  pub material : AuthorizationMaterial
  pub signature : String
  pub created_at : Instant

instance abbrev pub attestation_keyed : Keyed ReviewerAttestation
attestation_keyed = record { key = λ x. x.id }

instance abbrev pub decision_keyed : Keyed RecordedDecision
decision_keyed = record { key = λ x. x.id }

instance abbrev pub grant_keyed : Keyed CredentialGrant
grant_keyed = record { key = λ x. x.id }

instance abbrev pub authorization_keyed : Keyed ActionAuthorization
authorization_keyed = record { key = λ x. x.id }

instance abbrev pub consumption_keyed : Keyed RecordedConsumption
consumption_keyed = record { key = λ x. x.action_id }
