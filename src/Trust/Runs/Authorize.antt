-- ===== src/Trust/Runs/Authorize.antt =====
-- Human decisions on exact actions (trust_action_authorization.py).
use aixion_control_tower.Prelude.{
  ℕ, ◌+◌, not, Option, none, some, List, [], ◌∷◌, String, ◌==◌, ◌!=◌, contains, is_set, or_empty,
  string_eq, if◌then◌else◌,
}
use aixion_control_tower.Prelude.Lists.{find_first}
use aixion_control_tower.Prelude.Exec.{Exec, ok, err, conflict, not_found, ◌>>=◌, ◌>>◌, pure}
use aixion_control_tower.Prelude.Dict.{get, put}
use aixion_control_tower.Prelude.Text.{concat}
use aixion_control_tower.AgentRun.Models.{
  Instant, AgentRun, AgentRunStatus, AgentRunStep, AgentRunStepStatus, AgentRunEventType,
  run_status_eq, step_status_eq,
}
use aixion_control_tower.AgentRun.Supervisor.State.{run_keyed, step_keyed}
use aixion_control_tower.Trust.Models.{TrustEventType, PolicyDecisionType, decision_type_eq}
use aixion_control_tower.Trust.Leases.{ProposedAction, action_keyed}
use aixion_control_tower.Trust.Policy.Evaluate.{PolicyReason, decide}
use aixion_control_tower.Trust.Records.{
  AuthUser, UserRole, ActionAuthorization, ActionAuthorizationCreate, ActionAuthorizationDecision,
  AuthorizationMaterial, RecordedDecision, user_role_eq, authorization_decision_eq,
  authorization_keyed, decision_keyed,
}
use aixion_control_tower.Trust.Payload.{PayloadValue}
use aixion_control_tower.Trust.State.{
  Outside, TrustStore, trust_event, record_event, correlation_of,
}
use aixion_control_tower.Trust.Service.Consume.{
  latest_policy_decision, verify_action_authorization, human_marker,
}
use aixion_control_tower.Trust.Runs.Store.{shift_step, shift_run, append_run_event}

-- `REVIEWER_ROLES`
abbrev pub reviewer_roles : List UserRole
reviewer_roles = UserRole.reviewer ∷ UserRole.maintainer ∷ UserRole.owner ∷ []

abbrev pub approval_reason : String
approval_reason = "Exact trust action approval recorded."

-- `if step.status == NEEDS_HUMAN: transition_step(...)`, and the same for a run
abbrev pub shift_waiting_step :
    Instant → AgentRunStepStatus → String → AgentRunStep → Exec TrustStore AgentRunStep
shift_waiting_step now target reason step store =
    if step.status == AgentRunStepStatus.needs_human
    then shift_step now target reason step store
    else (ok step, store)

abbrev pub shift_waiting_run :
    Instant → AgentRunStatus → String → AgentRun → Exec TrustStore AgentRun
shift_waiting_run now target reason run store =
    if run.status == AgentRunStatus.needs_human
    then shift_run now target reason run store
    else (ok run, store)

-- The step is moved if it waits, then the run, and the event is appended.
abbrev pub tell_run : String → String → AgentRunStep → AgentRun → Exec TrustStore (Unit {0})
tell_run actor reason step run =
    append_run_event run (some step) AgentRunEventType.operator_action reason actor

abbrev pub settle_run :
    Instant
    → AgentRunStatus
    → String
    → String
    → String
    → AgentRun
    → AgentRunStep
    → Exec TrustStore (Unit {0})
settle_run now target why actor reason run step =
    shift_waiting_run now target why run >>= tell_run actor reason step

abbrev pub resume_or_block :
    Instant
    → ActionAuthorizationDecision
    → String
    → String
    → AgentRun
    → AgentRunStep
    → Exec TrustStore (Unit {0})
resume_or_block now ActionAuthorizationDecision.allow actor reason run step =
    shift_waiting_step now AgentRunStepStatus.ready approval_reason step
    >>= settle_run now AgentRunStatus.scheduled approval_reason actor reason run
resume_or_block now ActionAuthorizationDecision.block actor reason run step =
    shift_waiting_step now AgentRunStepStatus.blocked reason step
    >>= settle_run now AgentRunStatus.blocked reason actor reason run

abbrev pub apply_to_step :
    Option AgentRunStep
    → Instant
    → ActionAuthorizationDecision
    → String
    → String
    → AgentRun
    → Exec TrustStore (Unit {0})
apply_to_step none now decision actor reason run store = (ok tt, store)
apply_to_step (some step) now decision actor reason run store =
    if step.run_id != run.id
    then (ok tt, store)
    else resume_or_block now decision actor reason run step store

abbrev pub apply_to_run :
    Option AgentRun
    → Instant
    → String
    → ActionAuthorizationDecision
    → String
    → String
    → Exec TrustStore (Unit {0})
apply_to_run none now step_id decision actor reason store = (ok tt, store)
apply_to_run (some run) now step_id decision actor reason store =
    apply_to_step (get step_id store.steps) now decision actor reason run store

-- `_apply_durable_run_decision`, of an action of the store
unfoldable pub apply_durable_run_decision :
    Instant
    → ProposedAction
    → ActionAuthorizationDecision
    → String
    → String
    → Exec TrustStore (Unit {0})
unfolding shift_step shift_run append_run_event
apply_durable_run_decision now action decision actor reason store =
    if not (is_set action.run_id)
    then (ok tt, store)
    else apply_to_run (get (or_empty action.run_id) store.runs) now action.step_id decision actor
        reason store

-- An authorization that is recorded already takes effect on the run again.
abbrev pub repeat_authorization :
    Outside
    → Instant
    → ProposedAction
    → AuthUser
    → ActionAuthorization
    → Exec TrustStore ActionAuthorization
repeat_authorization o now action user existing store =
    if not (verify_action_authorization o existing action)
    then (err conflict, store)
    else (apply_durable_run_decision now action existing.material.decision user.email
            existing.material.reason
          >> pure existing)
        store

abbrev pub effective_decision : ActionAuthorizationDecision → PolicyDecisionType
effective_decision ActionAuthorizationDecision.allow = PolicyDecisionType.allow
effective_decision ActionAuthorizationDecision.block = PolicyDecisionType.block

abbrev pub effective_reason : ActionAuthorizationDecision → PolicyReason
effective_reason ActionAuthorizationDecision.allow = PolicyReason.human_allowed
effective_reason ActionAuthorizationDecision.block = PolicyReason.human_denied

abbrev pub effective_event : ActionAuthorizationDecision → TrustEventType
effective_event ActionAuthorizationDecision.allow = TrustEventType.action_allowed
effective_event ActionAuthorizationDecision.block = TrustEventType.action_blocked

abbrev pub new_authorization :
    Outside
    → Instant
    → ℕ
    → ProposedAction
    → ActionAuthorizationCreate
    → AuthUser
    → RecordedDecision
    → ActionAuthorization
new_authorization o now n action payload user current =
    let material : AuthorizationMaterial = record {
      action_id = action.id;
      action_payload_hash = o.action_hash action;
      policy_decision_id = current.id;
      reviewer_user_id = user.id;
      reviewer_role = user.role;
      decision = payload.decision;
      reason = payload.reason;
    } in
    record {
      id = o.new_id "action_authorization" n;
      material = material;
      signature = o.sign_authorization material;
      created_at = now;
    }

-- The decision that takes the place of the current one.
abbrev pub superseding :
    Outside
    → Instant
    → ℕ
    → ProposedAction
    → ActionAuthorizationCreate
    → RecordedDecision
    → RecordedDecision
superseding o now n action payload current = record {
  id = o.new_id "decision" n;
  verdict =
      decide action (effective_decision payload.decision) current.verdict.risk_level
        (effective_reason payload.decision ∷ []);
  evaluated_policy_version = concat current.evaluated_policy_version human_marker;
  evaluated_at = now;
}

-- The writes of a first authorization, up to the decision on the run.
abbrev pub write_authorization :
    Outside
    → Instant
    → ProposedAction
    → ActionAuthorizationCreate
    → AuthUser
    → RecordedDecision
    → TrustStore
    → TrustStore
write_authorization o now action payload user current store =
    let authorization = new_authorization o now store.drawn action payload user current in
    let effective = superseding o now (store.drawn + 1) action payload current in
    record_event o now
      (trust_event (effective_event payload.decision) "proposed_action" action.id user.email
        (correlation_of action)
        (("authorization_id", PayloadValue.text authorization.id)
          ∷ ("action_payload_hash", PayloadValue.text (o.action_hash action))
          ∷ ("prior_policy_decision_id", PayloadValue.text current.id)
          ∷ ("effective_policy_decision_id", PayloadValue.text effective.id)
          ∷ ("decision", PayloadValue.decision_value (effective_decision payload.decision))
          ∷ ("reason", PayloadValue.text payload.reason)
          ∷ []))
      (record store {
        authorizations = put authorization store.authorizations;
        decisions = put effective store.decisions;
        drawn = store.drawn + 2;
      })

abbrev pub authorize_first :
    Option ActionAuthorization
    → Outside
    → Instant
    → ProposedAction
    → ActionAuthorizationCreate
    → AuthUser
    → RecordedDecision
    → Exec TrustStore ActionAuthorization
authorize_first (some existing) o now action payload user current store =
    if existing.material.decision != payload.decision
    then (err conflict, store)
    else if existing.material.reason != payload.reason
    then (err conflict, store)
    else repeat_authorization o now action user existing store
authorize_first none o now action payload user current store =
    (apply_durable_run_decision now action payload.decision user.email payload.reason
        >> pure (new_authorization o now store.drawn action payload user current))
      (write_authorization o now action payload user current store)

-- An action that policy allows already: only a decision recorded before may take effect again.
abbrev pub authorize_allowed :
    Option ActionAuthorization
    → Outside
    → Instant
    → ProposedAction
    → AuthUser
    → Exec TrustStore ActionAuthorization
authorize_allowed none o now action user store = (err conflict, store)
authorize_allowed (some existing) o now action user store =
    repeat_authorization o now action user existing store

abbrev pub authorize_decided :
    Option RecordedDecision
    → Outside
    → Instant
    → ProposedAction
    → ActionAuthorizationCreate
    → AuthUser
    → Exec TrustStore ActionAuthorization
authorize_decided none o now action payload user store = (err conflict, store)
authorize_decided (some current) o now action payload user store =
    let existing = find_first (λ item. item.material.action_id == action.id) store.authorizations in
    if current.verdict.decision == PolicyDecisionType.block
    then (err conflict, store)
    else if current.verdict.decision == PolicyDecisionType.allow
    then authorize_allowed existing o now action user store
    else authorize_first existing o now action payload user current store

abbrev pub authorize_found :
    Option ProposedAction
    → Outside
    → Instant
    → ActionAuthorizationCreate
    → AuthUser
    → Exec TrustStore ActionAuthorization
authorize_found none o now payload user store = (err not_found, store)
authorize_found (some action) o now payload user store =
    authorize_decided (latest_policy_decision action.id store.decisions) o now action payload user
      store

-- `record_action_authorization`
unfoldable pub record_action_authorization :
    Outside
    → Instant
    → String
    → ActionAuthorizationCreate
    → AuthUser
    → Exec TrustStore ActionAuthorization
unfolding latest_policy_decision verify_action_authorization apply_durable_run_decision record_event
record_action_authorization o now action_id payload user store =
    if not (contains user.role reviewer_roles)
    then (err conflict, store)
    else authorize_found (get action_id store.actions) o now payload user store
