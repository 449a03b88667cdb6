-- ===== src/Trust/State.antt =====
-- The store of the trust plane (store.py, the collections that backend/app/trust_*.py use) and what
-- the trust plane takes from outside. The ids that `new_id` draws are numbered by `drawn`.
use aixion_control_tower.Prelude.{
  ℕ, ◌+◌, Bool, Option, none, some, List, [], ◌∷◌, String, is_set, if◌then◌else◌,
}
use aixion_control_tower.Prelude.Exec.{Error}
use aixion_control_tower.Prelude.Dict.{put}
use aixion_control_tower.Prelude.Text.{Text}
use aixion_control_tower.AgentRun.Models.{Instant, Evidence, AgentRun, AgentRunStep, AgentRunEvent}
use aixion_control_tower.Approvals.Models.{ApprovalRequest}
use aixion_control_tower.Tasks.Models.{AgentTask}
use aixion_control_tower.Trust.Models.{TrustEventType}
use aixion_control_tower.Trust.Leases.{CapabilityLease, ProposedAction, lease_keyed}
use aixion_control_tower.Trust.Policy.Evaluate.{LeaseReceipt}
use aixion_control_tower.Trust.Records.{
  CapabilityLeaseCreate, AttestationMaterial, AuthorizationMaterial, ReviewerAttestation,
  RecordedDecision, RecordedConsumption, CredentialGrant, ActionAuthorization,
}
use aixion_control_tower.Trust.Payload.{Payload}
use aixion_control_tower.Trust.FlightRecorder.Chain.{
  TrustEventCall, TrustEvent, EventMaterial, append_trust_event,
}

-- What tells the actions of one step apart, and the material of `_action_id` in agent_run_trust.py.
pub data ActionSuffix : Type 0 where
  branch files pull_request : ActionSuffix
  command : ℕ → ActionSuffix

pub record ActionIdMaterial : Type 0 where
  pub run_id : String
  pub step_id : String
  pub next_attempt : ℕ
  pub suffix : ActionSuffix
  pub capability_lease_id : Option String

-- The hashes and signatures of trust_crypto.py over the values that they are taken of, the ids,
-- nonces and tokens that are drawn, and `shlex.split`.
pub record Outside : Type 0 where
  pub new_id : String → ℕ → String
  pub new_nonce : ℕ → String
  pub new_token : ℕ → String
  pub event_hash : EventMaterial → String
  pub request_hash : CapabilityLeaseCreate → String
  pub action_hash : ProposedAction → String
  pub evidence_hash : Evidence → String
  pub action_id : ActionIdMaterial → String
  pub token_hash : String → String
  pub sign_receipt : LeaseReceipt → String
  pub sign_attestation : AttestationMaterial → String
  pub sign_authorization : AuthorizationMaterial → String
  pub shell_split : Text → Option (List Text)

pub record TrustStore : Type 0 where
  pub approvals : List ApprovalRequest
  pub tasks : List AgentTask
  pub external_agents : List String
  pub runs : List AgentRun
  pub steps : List AgentRunStep
  pub run_events : List AgentRunEvent
  pub attestations : List ReviewerAttestation
  pub leases : List CapabilityLease
  pub actions : List ProposedAction
  pub decisions : List RecordedDecision
  pub consumptions : List RecordedConsumption
  pub authorizations : List ActionAuthorization
  pub grants : List CredentialGrant
  pub events : List TrustEvent
  pub drawn : ℕ

abbrev pub trust_event :
    TrustEventType → String → String → String → Option String → Payload → TrustEventCall
trust_event event_type entity_type entity_id actor correlation_id payload = record {
  event_type = event_type;
  entity_type = entity_type;
  entity_id = entity_id;
  actor = actor;
  correlation_id = correlation_id;
  payload = payload;
}

-- A call of `append_trust_event`, which draws the event's id.
unfoldable pub record_event : Outside → Instant → TrustEventCall → TrustStore → TrustStore
unfolding append_trust_event
record_event o now call store = record store {
  events =
      (append_trust_event o.event_hash (o.new_id "trust_event" store.drawn) now call
        store.events).1;
  drawn = store.drawn + 1;
}

abbrev pub put_lease : CapabilityLease → TrustStore → TrustStore
put_lease lease store = record store { leases = put lease store.leases }

-- `if condition: raise error`, one after the other: the first error raised.
abbrev pub Guard : Type 0
Guard = Bool × Error

abbrev pub first_raised : List Guard → Option Error
first_raised [] = none
first_raised ((condition, error) ∷ rest) =
    let later = first_raised rest in if condition then some error else later

-- `action.run_id or action.task_id`
abbrev pub correlation_of : ProposedAction → Option String
correlation_of action = if is_set action.run_id then action.run_id else action.task_id
