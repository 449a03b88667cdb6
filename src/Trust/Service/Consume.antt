-- ===== src/Trust/Service/Consume.antt =====
-- The latest decision on an action (trust_decisions.py) and the consumption of an allowed action
-- (trust_consumption.py), with the check of a human decision (trust_action_authorization.py:
-- verify_action_authorization).
use aixion_control_tower.Prelude.{
  ◌+◌, Bool, true, false, ◌&&◌, ◌||◌, not, Option, none, some, List, [], ◌∷◌, String, ◌==◌, ◌!=◌,
  or_empty, string_eq, nat_eq, bool_eq, option_eq, list_eq, pair_eq, ltb, nat_beq, if◌then◌else◌,
}
use aixion_control_tower.Prelude.Lists.{keep, find_first}
use aixion_control_tower.Prelude.Exec.{Exec, Error, ok, err, conflict, not_found}
use aixion_control_tower.Prelude.Dict.{get, put}
use aixion_control_tower.Prelude.Text.{Text, codes, has}
use aixion_control_tower.AgentRun.Models.{Instant}
use aixion_control_tower.Trust.Models.{
  TrustEventType, CapabilityLeaseStatus, PolicyDecisionType, lease_status_eq, decision_type_eq,
}
use aixion_control_tower.Trust.Leases.{
  CapabilityLease, ProposedAction, ActionConsumption, lease_keyed, action_keyed,
}
use aixion_control_tower.Trust.Records.{
  RecordedDecision, RecordedConsumption, ActionAuthorization, ActionAuthorizationDecision,
  authorization_decision_eq, decision_keyed, consumption_keyed,
}
use aixion_control_tower.Trust.Payload.{
  PayloadValue.text, PayloadValue.optional, PayloadValue.number, PayloadValue.flag,
}
use aixion_control_tower.Trust.State.{
  Outside, TrustStore, Guard, first_raised, trust_event, record_event, correlation_of,
}
use aixion_control_tower.Trust.Service.Lifecycle.{refresh_lease_status}

-- `s < t` of two texts, by their code points
abbrev pub text_ltb : Text → Text → Bool
text_ltb s [] = false
text_ltb [] (d ∷ t) = true
text_ltb (c ∷ s) (d ∷ t) = ltb c d || (nat_beq c d && text_ltb s t)

-- `(a.evaluated_at, a.id) < (b.evaluated_at, b.id)`
abbrev pub is_before : RecordedDecision → RecordedDecision → Bool
is_before a b =
    ltb a.evaluated_at b.evaluated_at
    || (nat_beq a.evaluated_at b.evaluated_at && text_ltb (codes a.id) (codes b.id))

-- `max`, which keeps the first of the greatest
abbrev pub latest_from : RecordedDecision → List RecordedDecision → RecordedDecision
latest_from best [] = best
latest_from best (item ∷ rest) = latest_from (if is_before best item then item else best) rest

abbrev pub latest_of : List RecordedDecision → Option RecordedDecision
latest_of [] = none
latest_of (item ∷ rest) = some (latest_from item rest)

-- `latest_policy_decision`
unfoldable pub latest_policy_decision : String → List RecordedDecision → Option RecordedDecision
latest_policy_decision action_id decisions =
    latest_of (keep (λ item. item.verdict.proposed_action_id == action_id) decisions)

-- `verify_action_authorization`
unfoldable pub verify_action_authorization : Outside → ActionAuthorization → ProposedAction → Bool
verify_action_authorization o authorization action =
    (authorization.material.action_id == action.id)
    && (authorization.material.action_payload_hash == o.action_hash action)
    && (o.sign_authorization authorization.material == authorization.signature)

-- `_verify_human_allow`, as whether it passes
unfoldable pub verify_human_allow : Outside → ProposedAction → List ActionAuthorization → Bool
unfolding verify_action_authorization
verify_human_allow o action authorizations =
    elim (find_first (λ item. item.material.action_id == action.id) authorizations) [
      | none ↦ false
      | some authorization ↦
          (authorization.material.decision == ActionAuthorizationDecision.allow)
          && verify_action_authorization o authorization action
    ]

-- `existing != consumption`, negated
abbrev pub same_consumption : ActionConsumption → ActionConsumption → Bool
same_consumption a b =
    (a.actual_runtime_seconds == b.actual_runtime_seconds)
    && (a.actual_cost_usd == b.actual_cost_usd)
    && (a.pull_requests_created == b.pull_requests_created)
    && (a.retry_consumed == b.retry_consumed)
    && (a.output_reference == b.output_reference)
    && (a.evidence == b.evidence)

-- The projected use of the lease.
abbrev pub project_use : Instant → ActionConsumption → CapabilityLease → CapabilityLease
project_use now consumption lease = record lease {
  consumed_runtime_seconds = lease.consumed_runtime_seconds + consumption.actual_runtime_seconds;
  consumed_cost_usd = lease.consumed_cost_usd + consumption.actual_cost_usd;
  consumed_pull_requests = lease.consumed_pull_requests + consumption.pull_requests_created;
  consumed_retries = lease.consumed_retries + (if consumption.retry_consumed then 1 else 0);
  updated_at = now;
}

-- The conditions on a lease once it is refreshed: it is active, and the projected use is within
-- its budgets.
abbrev pub budget_guards : CapabilityLease → CapabilityLease → List Guard
budget_guards lease projected =
    (lease.status != CapabilityLeaseStatus.active, conflict)
    ∷ (ltb lease.scope.max_runtime_seconds projected.consumed_runtime_seconds, conflict)
    ∷ (ltb lease.scope.max_cost_usd projected.consumed_cost_usd, conflict)
    ∷ (ltb lease.scope.max_pull_requests projected.consumed_pull_requests, conflict)
    ∷ (ltb lease.scope.max_retries projected.consumed_retries, conflict)
    ∷ []

-- The writes of a consumption, with its event.
abbrev pub write_consumption :
    Outside
    → Instant
    → ProposedAction
    → RecordedDecision
    → ActionConsumption
    → String
    → CapabilityLease
    → TrustStore
    → TrustStore
write_consumption o now action decision consumption actor lease store =
    record_event o now
      (trust_event TrustEventType.action_consumed "proposed_action" action.id actor
        (correlation_of action)
        (("lease_id", text lease.id)
          ∷ ("effective_policy_decision_id", text decision.id)
          ∷ ("actual_runtime_seconds", number consumption.actual_runtime_seconds)
          ∷ ("actual_cost_usd", number consumption.actual_cost_usd)
          ∷ ("pull_requests_created", number consumption.pull_requests_created)
          ∷ ("retry_consumed", flag consumption.retry_consumed)
          ∷ ("output_reference", optional consumption.output_reference)
          ∷ ("evidence_hash", text (o.evidence_hash consumption.evidence))
          ∷ []))
      (record store {
        leases = put (project_use now consumption lease) store.leases;
        consumptions =
            put (record { action_id = action.id; consumption = consumption }) store.consumptions;
      })

abbrev pub consume_unless :
    Option Error
    → Outside
    → Instant
    → ProposedAction
    → RecordedDecision
    → ActionConsumption
    → String
    → CapabilityLease
    → Exec TrustStore ActionConsumption
consume_unless (some error) o now action decision consumption actor lease store = (err error, store)
consume_unless none o now action decision consumption actor lease store =
    (ok consumption, write_consumption o now action decision consumption actor lease store)

-- The first consumption of an action, under the lease that it names.
abbrev pub consume_under :
    Option CapabilityLease
    → Outside
    → Instant
    → ProposedAction
    → RecordedDecision
    → ActionConsumption
    → String
    → Exec TrustStore ActionConsumption
consume_under none o now action decision consumption actor store = (err conflict, store)
consume_under (some lease) o now action decision consumption actor store =
    let (refreshed, store') = refresh_lease_status o now lease store in
    consume_unless (first_raised (budget_guards refreshed (project_use now consumption refreshed)))
      o now action decision consumption actor refreshed store'

-- The answer when a consumption of the action is recorded already, or none is.
abbrev pub consume_once :
    Option RecordedConsumption
    → Outside
    → Instant
    → ProposedAction
    → RecordedDecision
    → ActionConsumption
    → String
    → Exec TrustStore ActionConsumption
consume_once (some existing) o now action decision consumption actor store =
    if not (same_consumption existing.consumption consumption)
    then (err conflict, store)
    else (ok existing.consumption, store)
consume_once none o now action decision consumption actor store =
    consume_under (get (or_empty action.lease_id) store.leases) o now action decision consumption
      actor store

-- The part of a version that marks a human decision.
abbrev pub human_marker : String
human_marker = "+human-decision"

abbrev pub is_human : RecordedDecision → Bool
is_human decision = has (codes decision.evaluated_policy_version) (codes human_marker)

abbrev pub consume_decided :
    Option RecordedDecision
    → Outside
    → Instant
    → ProposedAction
    → ActionConsumption
    → String
    → Exec TrustStore ActionConsumption
consume_decided none o now action consumption actor store = (err conflict, store)
consume_decided (some decision) o now action consumption actor store =
    if decision.verdict.decision != PolicyDecisionType.allow
    then (err conflict, store)
    else if is_human decision && not (verify_human_allow o action store.authorizations)
    then (err conflict, store)
    else consume_once (get action.id store.consumptions) o now action decision consumption actor
        store

abbrev pub consume_found :
    Option ProposedAction
    → Outside
    → Instant
    → ActionConsumption
    → String
    → Exec TrustStore ActionConsumption
consume_found none o now consumption actor store = (err not_found, store)
consume_found (some action) o now consumption actor store =
    consume_decided (latest_policy_decision action.id store.decisions) o now action consumption
      actor store

-- `consume_effective_action`
unfoldable pub consume_effective_action :
    Outside → Instant → String → ActionConsumption → String → Exec TrustStore ActionConsumption
unfolding latest_policy_decision verify_human_allow refresh_lease_status record_event
consume_effective_action o now action_id consumption actor store =
    consume_found (get action_id store.actions) o now consumption actor store
