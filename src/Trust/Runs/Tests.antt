-- ===== src/Trust/Runs/Tests.antt =====
-- Human decisions, attached leases and trusted steps at concrete stores.
use aixion_control_tower.Prelude.{◌≡◌, ◌⊎◌, refl, true, some, List, [], ◌∷◌, arith}
use aixion_control_tower.Prelude.Lists.{length}
use aixion_control_tower.AgentRun.Models.{
  AgentRun, AgentRunStep, AgentRunStatus, AgentRunStepStatus, AgentRunStepType,
}
use aixion_control_tower.AgentRun.Fixtures.{run_in, step_in}
use aixion_control_tower.Trust.Models.{PolicyDecisionType}
use aixion_control_tower.Trust.Leases.{ProposedAction}
use aixion_control_tower.Trust.Policy.Fixtures.{source_change}
use aixion_control_tower.Trust.Records.{
  ActionAuthorizationCreate, ActionAuthorizationDecision, RecordedDecision,
}
use aixion_control_tower.Trust.State.{TrustStore}
use aixion_control_tower.Trust.Service.Fixtures.{plain, owner, approved_login, allowed, busy_plane}
use aixion_control_tower.Trust.Runs.Authorize.{new_authorization, record_action_authorization}
use aixion_control_tower.Trust.Runs.AuthorizeLaws.{
  HumanAllowed, record_action_authorization-HumanAllowed,
}
use aixion_control_tower.Prelude.Text.{lower_code}
use aixion_control_tower.Trust.Policy.Paths.{path_allowed}
use aixion_control_tower.Trust.Runs.Attach.{lease_reasons, attach_capability_lease}
use aixion_control_tower.Trust.Runs.Bound.{Attached, attach_capability_lease-Attached}
use aixion_control_tower.Trust.Runs.StepTrust.{
  duration_seconds, step_consumptions, authorize_run_step,
}
use aixion_control_tower.Trust.Runs.Shares.{total_runtime, step_consumptions-total_runtime}
use aixion_control_tower.Trust.Runs.StepTrustLaws.{Trusted, authorize_run_step-Trusted}

abbrev yes_please : ActionAuthorizationCreate
yes_please = record { decision = ActionAuthorizationDecision.allow; reason = "Reviewed." }

abbrev escalated_decision : RecordedDecision
escalated_decision = record allowed {
  verdict = record allowed.verdict { decision = PolicyDecisionType.require_approval };
}

abbrev escalated_plane : TrustStore
escalated_plane = record busy_plane { decisions = escalated_decision ∷ [] }

record_action_authorization-HumanAllowed_example :
    HumanAllowed plain source_change
      (record_action_authorization plain 10 "action_1" yes_please owner escalated_plane).1
unfolding record_action_authorization
record_action_authorization-HumanAllowed_example =
    record_action_authorization-HumanAllowed plain 10 source_change yes_please owner
      escalated_decision escalated_plane refl refl refl refl (omega arith, tt) "action_1"
      (record_action_authorization plain 10 "action_1" yes_please owner escalated_plane).1
      (new_authorization plain 10 0 source_change yes_please owner escalated_decision) refl refl
      refl refl

abbrev free_run : AgentRun
free_run = run_in AgentRunStatus.scheduled

abbrev bound_run : AgentRun
bound_run = record free_run { capability_lease_id = some "lease_1"; updated_at = 10 }

abbrev sealed_plane : TrustStore
sealed_plane = record busy_plane {
  approvals = record approved_login { approved_payload_hash = some "hash" } ∷ [];
  actions = [];
  decisions = [];
}

attach_capability_lease-Attached_example :
    let t = (attach_capability_lease plain 10 free_run "lease_1" "owner" sealed_plane).1 in
    Attached plain 10 free_run "lease_1" sealed_plane bound_run
    ⊎ ((free_run.capability_lease_id ≡ some "lease_1")
        × (bound_run ≡ free_run)
        × (t ≡ sealed_plane))
unfolding attach_capability_lease
attach_capability_lease-Attached_example =
    attach_capability_lease-Attached plain 10 free_run bound_run "lease_1" "owner" sealed_plane
      (attach_capability_lease plain 10 free_run "lease_1" "owner" sealed_plane).1 refl

abbrev change_step : AgentRunStep
change_step = record (step_in "step_2" 2 0 AgentRunStepStatus.ready) {
  step_type = AgentRunStepType.apply_changes;
}

abbrev change_actions : List ProposedAction
change_actions =
    record source_change {
      id = "step_2";
      task_id = some "task_1";
      step_id = "step_2";
      estimated_cost_usd = 0;
      created_at = 0;
    }
    ∷ []

authorize_run_step-Trusted_example :
    Trusted plain 10 bound_run change_step "worker" 60 sealed_plane change_actions
unfolding authorize_run_step lease_reasons lower_code path_allowed
authorize_run_step-Trusted_example =
    authorize_run_step-Trusted plain 10 bound_run change_step "worker" 60 sealed_plane
      (authorize_run_step plain true 10 bound_run change_step "worker" 60 sealed_plane).1
      change_actions refl refl

step_consumptions-total_runtime_example :
    let step = record change_step { duration_ms = some 7500 } in
    total_runtime (
      step_consumptions step
        (length (source_change ∷ source_change ∷ []))
        0
        (source_change ∷ source_change ∷ []))
    ≡ duration_seconds step
step_consumptions-total_runtime_example =
    step_consumptions-total_runtime (record change_step { duration_ms = some 7500 }) source_change
      (source_change ∷ [])
