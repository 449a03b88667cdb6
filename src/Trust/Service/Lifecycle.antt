-- ===== src/Trust/Service/Lifecycle.antt =====
-- Expiry and revocation of leases, and the gateway (trust_service.py: refresh_lease_status,
-- revoke_capability_lease and evaluate_gateway_action).
use aixion_control_tower.Prelude.{
  ◌+◌, true, ◌&&◌, not, Option, none, some, [], ◌∷◌, String, map, ◌==◌, ◌!=◌, or_empty, string_eq,
  leb, if◌then◌else◌,
}
use aixion_control_tower.Prelude.Exec.{Exec, ok, err, conflict}
use aixion_control_tower.Prelude.Dict.{get, put}
use aixion_control_tower.AgentRun.Models.{Instant}
use aixion_control_tower.Trust.Models.{
  TrustEventType, CapabilityLeaseStatus, PolicyDecisionType, lease_status_eq,
}
use aixion_control_tower.Trust.Leases.{CapabilityLease, ProposedAction, lease_keyed, action_keyed}
use aixion_control_tower.Trust.Policy.Evaluate.{evaluate_proposed_action}
use aixion_control_tower.Trust.Records.{AuthUser, CredentialGrant, RecordedDecision, decision_keyed}
use aixion_control_tower.Trust.Payload.{
  PayloadValue.text, PayloadValue.optional, PayloadValue.number, PayloadValue.provider_value,
  PayloadValue.action_value, PayloadValue.decision_value, PayloadValue.risk_value,
  PayloadValue.reason_values,
}
use aixion_control_tower.Trust.State.{
  Outside, TrustStore, trust_event, record_event, put_lease, correlation_of,
}

abbrev pub expire_lease : Instant → CapabilityLease → CapabilityLease
expire_lease now lease = record lease { status = CapabilityLeaseStatus.expired; updated_at = now }

-- `refresh_lease_status`: the lease as it then stands, and the store.
unfoldable pub refresh_lease_status :
    Outside → Instant → CapabilityLease → TrustStore → CapabilityLease × TrustStore
unfolding record_event
refresh_lease_status o now lease store =
    if (lease.status == CapabilityLeaseStatus.active) && leb lease.expires_at now
    then (
      expire_lease now lease,
      record_event o now
          (trust_event TrustEventType.lease_expired "capability_lease" lease.id "system" none
            (("expires_at", number lease.expires_at) ∷ []))
          (put_lease (expire_lease now lease) store),
    )
    else (lease, store)

abbrev pub revoke_lease : Instant → AuthUser → String → CapabilityLease → CapabilityLease
revoke_lease now user reason lease = record lease {
  status = CapabilityLeaseStatus.revoked;
  revoked_at = some now;
  revoked_by_user_id = some user.id;
  revocation_reason = reason;
  updated_at = now;
}

-- The loop over the grants: those of the lease are revoked with it.
abbrev pub revoke_grant_of : Instant → String → CredentialGrant → CredentialGrant
revoke_grant_of now lease_id grant =
    if (grant.lease_id == lease_id) && not grant.revoked
    then record grant { revoked = true; revoked_at = some now }
    else grant

abbrev pub revoke_with_grants :
    Outside → Instant → AuthUser → String → CapabilityLease → TrustStore → TrustStore
revoke_with_grants o now user reason lease store =
    record_event o now
      (trust_event TrustEventType.lease_revoked "capability_lease" lease.id user.email none
        (("reason", text reason) ∷ []))
      (record store {
        leases = put (revoke_lease now user reason lease) store.leases;
        grants = map (revoke_grant_of now lease.id) store.grants;
      })

-- What is left of `revoke_capability_lease` once the lease is refreshed.
abbrev pub revoke_refreshed :
    Outside → Instant → AuthUser → String → CapabilityLease → Exec TrustStore CapabilityLease
revoke_refreshed o now user reason lease store =
    if lease.status == CapabilityLeaseStatus.revoked
    then (ok lease, store)
    else if lease.status == CapabilityLeaseStatus.expired
    then (ok lease, store)
    else if lease.status != CapabilityLeaseStatus.active
    then (err conflict, store)
    else (ok (revoke_lease now user reason lease), revoke_with_grants o now user reason lease store)

-- `revoke_capability_lease`
unfoldable pub revoke_capability_lease :
    Outside → Instant → AuthUser → String → CapabilityLease → Exec TrustStore CapabilityLease
unfolding refresh_lease_status record_event
revoke_capability_lease o now user reason lease store =
    let (refreshed, store') = refresh_lease_status o now lease store in
    revoke_refreshed o now user reason refreshed store'

-- The lease that an action names, refreshed.
abbrev pub refresh_named :
    Outside → Instant → Option CapabilityLease → TrustStore → Option CapabilityLease × TrustStore
refresh_named o now none store = (none, store)
refresh_named o now (some lease) store =
    let (refreshed, store') = refresh_lease_status o now lease store in (some refreshed, store')

-- The `event_type` that a decision is told under.
abbrev pub decision_event : PolicyDecisionType → TrustEventType
decision_event PolicyDecisionType.allow = TrustEventType.action_allowed
decision_event PolicyDecisionType.require_approval = TrustEventType.action_requires_approval
decision_event PolicyDecisionType.block = TrustEventType.action_blocked

abbrev pub receive_action : Outside → Instant → ProposedAction → String → TrustStore → TrustStore
receive_action o now action actor store =
    record_event o now
      (trust_event TrustEventType.action_received "proposed_action" action.id actor
        (correlation_of action)
        (("provider", provider_value action.provider)
          ∷ ("agent_id", optional action.agent_id)
          ∷ ("action_type", action_value action.action_type)
          ∷ ("lease_id", optional action.lease_id)
          ∷ []))
      (record store { actions = put action store.actions })

-- A decision is stored and told to the flight recorder; its obligations are left out.
abbrev pub store_decision :
    Outside → Instant → ProposedAction → String → RecordedDecision → TrustStore → TrustStore
store_decision o now action actor decision store =
    record_event o now
      (trust_event (decision_event decision.verdict.decision) "proposed_action" action.id actor
        (correlation_of action)
        (("decision_id", text decision.id)
          ∷ ("decision", decision_value decision.verdict.decision)
          ∷ ("risk_level", risk_value decision.verdict.risk_level)
          ∷ ("reasons", reason_values decision.verdict.reasons)
          ∷ []))
      (record store { decisions = put decision store.decisions; drawn = store.drawn + 1 })

-- `evaluate_gateway_action`; the result's action and lease are those of the store.
unfoldable pub evaluate_gateway_action :
    Outside → Instant → ProposedAction → String → TrustStore → RecordedDecision × TrustStore
unfolding refresh_lease_status record_event evaluate_proposed_action
evaluate_gateway_action o now action actor store =
    let (lease, refreshed) =
      refresh_named o now (get (or_empty action.lease_id) store.leases) store in
    let received = receive_action o now action actor refreshed in
    let decision : RecordedDecision = record {
      id = o.new_id "decision" received.drawn;
      verdict = evaluate_proposed_action o.sign_receipt o.shell_split now action lease;
      evaluated_policy_version = "trust-policy-v1";
      evaluated_at = now;
    } in
    (decision, store_decision o now action actor decision received)
