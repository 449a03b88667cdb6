-- ===== src/Trust/Runs/StepTrust.antt =====
-- The trust check before a step with side effects, and the consumption after it (agent_run_trust.py:
-- _mark_needs_human, _mark_blocked, authorize_run_step and consume_run_step_actions). The settings'
-- `trust_enforcement` is an argument, and the wording of a policy decision's reasons is left out.
use aixion_control_tower.Prelude.{
  ℕ, ◌+◌, ◌-◌, ◌*◌, ◌/◌, Bool, ◌&&◌, ◌||◌, not, Option, none, some, List, [], ◌∷◌, String, ◌==◌,
  ◌!=◌, contains, is_set, or_empty, ltb, nat_beq, if◌then◌else◌,
}
use aixion_control_tower.Prelude.Lists.{is_nil, length}
use aixion_control_tower.Prelude.Exec.{Exec, Result, ok, err, conflict, ◌>>=◌, ◌>>◌, pure, raise}
use aixion_control_tower.Prelude.Dict.{get}
use aixion_control_tower.Prelude.Text.{concat, join_spaced}
use aixion_control_tower.AgentRun.Models.{
  Instant, AgentRun, AgentRunStatus, AgentRunStep, AgentRunStepStatus, AgentRunStepType,
  AgentRunEventType, run_status_eq, step_status_eq, step_type_eq,
}
use aixion_control_tower.Trust.Models.{PolicyDecisionType}
use aixion_control_tower.Trust.Leases.{
  CapabilityLease, ProposedAction, ActionConsumption, lease_keyed, action_keyed,
}
use aixion_control_tower.Trust.Records.{RecordedDecision}
use aixion_control_tower.Trust.State.{Outside, TrustStore}
use aixion_control_tower.Trust.Service.Lifecycle.{evaluate_gateway_action}
use aixion_control_tower.Trust.Service.Consume.{latest_policy_decision, consume_effective_action}
use aixion_control_tower.Trust.Runs.Store.{shift_step, shift_run, append_run_event}
use aixion_control_tower.Trust.Runs.Authorize.{
  approval_reason, shift_waiting_step, shift_waiting_run,
}
use aixion_control_tower.Trust.Runs.Attach.{side_effect_steps, validate_lease_for_run}
use aixion_control_tower.Trust.Runs.Actions.{step_actions, preflight_aggregate_budget, same_action}

-- `if step.status != target: transition_step(...)`, and the same for a run
abbrev pub ensure_step :
    Instant → AgentRunStepStatus → String → AgentRunStep → Exec TrustStore AgentRunStep
ensure_step now target reason step store =
    if step.status != target then shift_step now target reason step store else (ok step, store)

abbrev pub ensure_run : Instant → AgentRunStatus → String → AgentRun → Exec TrustStore AgentRun
ensure_run now target reason run store =
    if run.status != target then shift_run now target reason run store else (ok run, store)

-- `_mark_needs_human`
abbrev pub mark_needs_human :
    Instant → AgentRun → AgentRunStep → String → String → Exec TrustStore (Unit {0})
mark_needs_human now run step actor reason =
    ensure_step now AgentRunStepStatus.needs_human reason step >>= λ step'.
    ensure_run now AgentRunStatus.needs_human reason run >>= λ run'.
    append_run_event run' (some step') AgentRunEventType.step_needs_human "" actor

-- `_mark_blocked`
abbrev pub mark_blocked :
    Instant → AgentRun → AgentRunStep → String → String → Exec TrustStore (Unit {0})
mark_blocked now run step actor reason =
    ensure_step now AgentRunStepStatus.blocked reason step >>= λ step'.
    ensure_run now AgentRunStatus.blocked reason run >>= λ run'.
    append_run_event run' (some step') AgentRunEventType.step_blocked "" actor

-- The run is blocked, and the error raised.
abbrev pub block_and_raise :
    {A : Type 0} → Instant → AgentRun → AgentRunStep → String → String → Exec TrustStore A
block_and_raise now run step actor reason = mark_blocked now run step actor reason >> raise conflict

abbrev pub different_payload : String
different_payload = "Deterministic trust action identifier resolved to a different payload."

abbrev pub no_decision : String
no_decision = "Existing trust action has no policy decision."

abbrev pub known_decision :
    Option RecordedDecision
    → Instant
    → AgentRun
    → AgentRunStep
    → String
    → Exec TrustStore RecordedDecision
known_decision none now run step actor store = block_and_raise now run step actor no_decision store
known_decision (some decision) now run step actor store = (ok decision, store)

-- The decision on one action: a new evaluation, or the latest decision if the action is known.
abbrev pub decision_on :
    Option ProposedAction
    → Outside
    → Instant
    → AgentRun
    → AgentRunStep
    → String
    → ProposedAction
    → Exec TrustStore RecordedDecision
decision_on none o now run step actor action store =
    let (decision, store') = evaluate_gateway_action o now action actor store in
    (ok decision, store')
decision_on (some existing) o now run step actor action store =
    if not (same_action existing action)
    then block_and_raise now run step actor different_payload store
    else known_decision (latest_policy_decision action.id store.decisions) now run step actor store

-- What a decision means for the run: only ALLOW goes on.
abbrev pub follow_decision :
    PolicyDecisionType
    → Instant
    → AgentRun
    → AgentRunStep
    → String
    → String
    → Exec TrustStore (Unit {0})
follow_decision PolicyDecisionType.allow now run step actor action_id = pure tt
follow_decision PolicyDecisionType.block now run step actor action_id =
    block_and_raise now run step actor "Trust policy blocked execution: "
follow_decision PolicyDecisionType.require_approval now run step actor action_id =
    mark_needs_human now run step actor
      (concat "Exact action approval is required before execution: " action_id)
    >> raise conflict

abbrev pub judge_decision :
    Instant
    → AgentRun
    → AgentRunStep
    → String
    → ProposedAction
    → RecordedDecision
    → Exec TrustStore (Unit {0})
judge_decision now run step actor action decision =
    append_run_event run (some step) AgentRunEventType.trust_policy_evaluated "" actor
    >> follow_decision decision.verdict.decision now run step actor action.id

abbrev pub authorize_action :
    Outside
    → Instant
    → AgentRun
    → AgentRunStep
    → String
    → ProposedAction
    → Exec TrustStore (Unit {0})
authorize_action o now run step actor action store =
    (decision_on (get action.id store.actions) o now run step actor action
        >>= judge_decision now run step actor action)
      store

-- The loop of `authorize_run_step`.
abbrev pub authorize_actions :
    Outside
    → Instant
    → AgentRun
    → AgentRunStep
    → String
    → List ProposedAction
    → Exec TrustStore (Unit {0})
authorize_actions o now run step actor [] = pure tt
authorize_actions o now run step actor (action ∷ rest) =
    authorize_action o now run step actor action >> authorize_actions o now run step actor rest

-- The end of `authorize_run_step`: a step and a run that waited for the decision go on.
abbrev pub release_waiting :
    Instant → AgentRun → AgentRunStep → List ProposedAction → Exec TrustStore (List ProposedAction)
release_waiting now run step actions =
    shift_waiting_step now AgentRunStepStatus.ready approval_reason step
    >> shift_waiting_run now AgentRunStatus.scheduled approval_reason run
    >> pure actions

abbrev pub authorize_planned :
    Option (List ProposedAction)
    → Outside
    → Instant
    → AgentRun
    → AgentRunStep
    → String
    → CapabilityLease
    → Exec TrustStore (List ProposedAction)
authorize_planned none o now run step actor lease store = (err conflict, store)
authorize_planned (some actions) o now run step actor lease store =
    elim (preflight_aggregate_budget lease actions) [
      | some reason ↦ block_and_raise now run step actor reason store
      | none ↦
          (authorize_actions o now run step actor actions >> release_waiting now run step actions)
            store
    ]

abbrev pub authorize_valid :
    (List String × CapabilityLease) × TrustStore
    → Outside
    → Instant
    → AgentRun
    → AgentRunStep
    → String
    → ℕ
    → Result (List ProposedAction) × TrustStore
authorize_valid ((reasons, lease), store) o now run step actor timeout_seconds =
    if not (is_nil reasons)
    then block_and_raise now run step actor (join_spaced reasons) store
    else authorize_planned (step_actions o run step timeout_seconds store) o now run step actor
        lease store

abbrev pub authorize_under :
    Option CapabilityLease
    → Outside
    → Instant
    → AgentRun
    → AgentRunStep
    → String
    → ℕ
    → Exec TrustStore (List ProposedAction)
authorize_under none o now run step actor timeout_seconds store = (err conflict, store)
authorize_under (some lease) o now run step actor timeout_seconds store =
    authorize_valid (validate_lease_for_run o now run lease store) o now run step actor
      timeout_seconds

-- `authorize_run_step`
unfoldable pub authorize_run_step :
    Outside
    → Bool
    → Instant
    → AgentRun
    → AgentRunStep
    → String
    → ℕ
    → Exec TrustStore (List ProposedAction)
unfolding step_actions preflight_aggregate_budget shift_step shift_run append_run_event
    latest_policy_decision evaluate_gateway_action
authorize_run_step o trust_enforcement now run step actor timeout_seconds store =
    if not trust_enforcement || not (contains step.step_type side_effect_steps)
    then (ok [], store)
    else if not (is_set run.capability_lease_id)
    then (err conflict, store)
    else authorize_under (get (or_empty run.capability_lease_id) store.leases) o now run step actor
        timeout_seconds store

-- `max(0, int((step.duration_ms or 0) / 1000))`
abbrev pub duration_seconds : AgentRunStep → ℕ
duration_seconds step = elim step.duration_ms [ none ↦ 0 | some ms ↦ ms / 1000 ]

-- The runtime of action `index` among `count`.
abbrev pub runtime_share : ℕ → ℕ → ℕ → ℕ
runtime_share duration count index =
    let per_action_runtime = duration / count in
    let remainder = duration - per_action_runtime * count in
    per_action_runtime + (if ltb index remainder then 1 else 0)

-- The consumption of action `index`; of its evidence the texts are kept.
abbrev pub step_consumption : AgentRunStep → ℕ → ℕ → ActionConsumption
step_consumption step count index = record {
  actual_runtime_seconds = runtime_share (duration_seconds step) count index;
  actual_cost_usd = 0;
  pull_requests_created = if step.step_type == AgentRunStepType.create_pull_request then 1 else 0;
  retry_consumed = ltb 1 step.attempt_count && nat_beq index 0;
  output_reference = step.output_reference;
  evidence =
      ("run_id", step.run_id)
      ∷ ("step_id", step.id)
      ∷ ("step_evidence_hash", or_empty step.evidence_hash)
      ∷ [];
}

-- The consumptions of all the actions of a step, from `index` on.
abbrev pub step_consumptions :
    AgentRunStep → ℕ → ℕ → List ProposedAction → List (ProposedAction × ActionConsumption)
step_consumptions step count index [] = []
step_consumptions step count index (action ∷ rest) =
    (action, step_consumption step count index) ∷ step_consumptions step count (index + 1) rest

abbrev pub consume_each :
    Outside
    → Instant
    → String
    → List (ProposedAction × ActionConsumption)
    → Exec TrustStore (Unit {0})
consume_each o now actor [] = pure tt
consume_each o now actor ((action, consumption) ∷ rest) =
    consume_effective_action o now action.id consumption actor >> consume_each o now actor rest

-- `consume_run_step_actions`
unfoldable pub consume_run_step_actions :
    Outside → Instant → List ProposedAction → AgentRunStep → String → Exec TrustStore (Unit {0})
unfolding consume_effective_action
consume_run_step_actions o now actions step actor store =
    if is_nil actions || (step.status != AgentRunStepStatus.succeeded)
    then (ok tt, store)
    else consume_each o now actor (step_consumptions step (length actions) 0 actions) store
