-- ===== src/Trust/Payload.antt =====
-- The values in the payload of a flight recorder's event (the `payload` of the calls of
-- `append_trust_event` in backend/app).
use aixion_control_tower.Prelude.{ℕ, Bool, Option, List, String}
use aixion_control_tower.Trust.Models.{
  AgentProvider, CapabilityLeaseMode, CapabilityActionType, PolicyDecisionType, RiskLevel,
}
use aixion_control_tower.Trust.Policy.Evaluate.{PolicyReason}
use aixion_control_tower.Trust.Records.{UserRole, ReviewerAttestationDecision, CredentialGrantType}

pub data PayloadValue : Type 0 where
  text : String → PayloadValue
  optional : Option String → PayloadValue
  texts : List String → PayloadValue
  number : ℕ → PayloadValue
  flag : Bool → PayloadValue
  provider_value : AgentProvider → PayloadValue
  mode_value : CapabilityLeaseMode → PayloadValue
  action_value : CapabilityActionType → PayloadValue
  decision_value : PolicyDecisionType → PayloadValue
  risk_value : RiskLevel → PayloadValue
  reason_values : List PolicyReason → PayloadValue
  role_value : UserRole → PayloadValue
  attestation_value : ReviewerAttestationDecision → PayloadValue
  grant_value : CredentialGrantType → PayloadValue

abbrev pub Payload : Type 0
Payload = List (String × PayloadValue)
