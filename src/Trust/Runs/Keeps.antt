-- ===== src/Trust/Runs/Keeps.antt =====
-- A human decision on a run leaves actions, decisions and authorizations alone
-- (trust_action_authorization.py: _apply_durable_run_decision).
use aixion_control_tower.Prelude.{
  refl, ◌∙◌, not, Option, none, some, String, ◌==◌, ◌!=◌, or_empty, is_set, string_eq,
  either_branch,
}
use aixion_control_tower.Prelude.Exec.{Exec, Result, ok, err, continue, ◌>>=◌}
use aixion_control_tower.Prelude.Dict.{get}
use aixion_control_tower.AgentRun.Models.{
  Instant, AgentRun, AgentRunStatus, AgentRunStep, AgentRunStepStatus, AgentRunEventType,
  run_status_eq, step_status_eq,
}
use aixion_control_tower.AgentRun.Supervisor.State.{run_keyed, step_keyed}
use aixion_control_tower.Trust.Models.{decision_type_eq}
use aixion_control_tower.Trust.Leases.{ProposedAction, action_keyed}
use aixion_control_tower.Trust.Records.{
  ActionAuthorizationDecision, user_role_eq, authorization_decision_eq, authorization_keyed,
  decision_keyed,
}
use aixion_control_tower.Trust.State.{TrustStore}
use aixion_control_tower.Trust.Service.ConsumeLaws.{Kept}
use aixion_control_tower.Trust.Runs.Store.{
  keep_moved_step, keep_moved_run, shift_step, shift_run, append_run_event,
}
use aixion_control_tower.AgentRun.StateMachine.Runs.{transition_run}
use aixion_control_tower.AgentRun.StateMachine.Steps.{transition_step}
use aixion_control_tower.Trust.Runs.Authorize.{
  approval_reason, tell_run, settle_run, shift_waiting_step, shift_waiting_run, resume_or_block,
  apply_to_step, apply_to_run, apply_durable_run_decision,
}

-- A call that leaves actions, decisions and authorizations alone.
pub record Keeps {A : Type 0} (s : TrustStore) (outcome : Result A × TrustStore) : Type 0 where
  pub kept : Kept s outcome.1

pub same_store : (s : TrustStore) → Kept s s
same_store s = record { actions = refl; decisions = refl; authorizations = refl }

Kept-twice : {s t u : TrustStore} → Kept s t → Kept t u → Kept s u
Kept-twice a b = record {
  actions = b.actions ∙ a.actions;
  decisions = b.decisions ∙ a.decisions;
  authorizations = b.authorizations ∙ a.authorizations;
}

continue-Keeps :
    {A B : Type 0} (r : Result A) (f : A → Exec TrustStore B) (s t : TrustStore)
    → Kept s t
    → ((a : A) (u : TrustStore) → Keeps u (f a u))
    → Keeps s (continue r f t)
continue-Keeps (ok a) f s t k h = record { kept = Kept-twice k (h a t).kept }
continue-Keeps (err e) f s t k h = record { kept = k }

pub bind-Keeps :
    {A B : Type 0} (m : Exec TrustStore A) (f : A → Exec TrustStore B) (s : TrustStore)
    → Keeps s (m s)
    → ((a : A) (u : TrustStore) → Keeps u (f a u))
    → Keeps s ((m >>= f) s)
bind-Keeps m f s k h = continue-Keeps (m s).0 f s (m s).1 k.kept h

moved_step-Keeps :
    (r : Result (AgentRunStepStatus × AgentRunStepStatus) × AgentRunStep) (s : TrustStore)
    → Keeps s (keep_moved_step r s)
moved_step-Keeps (ok _, step) s = record {
  kept = record { actions = refl; decisions = refl; authorizations = refl };
}
moved_step-Keeps (err e, _) s = record { kept = same_store s }

moved_run-Keeps :
    (r : Result (AgentRunStatus × AgentRunStatus) × AgentRun) (s : TrustStore)
    → Keeps s (keep_moved_run r s)
moved_run-Keeps (ok _, run) s = record {
  kept = record { actions = refl; decisions = refl; authorizations = refl };
}
moved_run-Keeps (err e, _) s = record { kept = same_store s }

waiting_step-Keeps :
    (now : Instant) (target : AgentRunStepStatus) (reason : String) (step : AgentRunStep)
    (s : TrustStore)
    → Keeps s (shift_waiting_step now target reason step s)
unfolding shift_step
waiting_step-Keeps now target reason step s =
    either_branch (Keeps s) (step.status == AgentRunStepStatus.needs_human) _ _
      (moved_step-Keeps (transition_step now target reason step) s) (record { kept = same_store s })

waiting_run-Keeps :
    (now : Instant) (target : AgentRunStatus) (reason : String) (run : AgentRun) (s : TrustStore)
    → Keeps s (shift_waiting_run now target reason run s)
unfolding shift_run
waiting_run-Keeps now target reason run s =
    either_branch (Keeps s) (run.status == AgentRunStatus.needs_human) _ _
      (moved_run-Keeps (transition_run now target reason run) s) (record { kept = same_store s })

append-Keeps :
    (run : AgentRun) (step : Option AgentRunStep) (event_type : AgentRunEventType)
    (reason actor : String) (s : TrustStore)
    → Keeps s (append_run_event run step event_type reason actor s)
unfolding append_run_event
append-Keeps run step event_type reason actor s = record {
  kept = record { actions = refl; decisions = refl; authorizations = refl };
}

module _ (now : Instant) (actor reason : String) (run : AgentRun) where
  settle_run-Keeps :
      (target : AgentRunStatus) (why : String) (step : AgentRunStep) (s : TrustStore)
      → Keeps s (settle_run now target why actor reason run step s)
  settle_run-Keeps target why step s =
      bind-Keeps (shift_waiting_run now target why run) (tell_run actor reason step) s
        (waiting_run-Keeps now target why run s)
        (λ run' u. append-Keeps run' (some step) AgentRunEventType.operator_action reason actor u)

  resume-Keeps :
      (decision : ActionAuthorizationDecision) (step : AgentRunStep) (s : TrustStore)
      → Keeps s (resume_or_block now decision actor reason run step s)
  resume-Keeps ActionAuthorizationDecision.allow step s =
      bind-Keeps (shift_waiting_step now AgentRunStepStatus.ready approval_reason step) _ s
        (waiting_step-Keeps now AgentRunStepStatus.ready approval_reason step s)
        (settle_run-Keeps AgentRunStatus.scheduled approval_reason)
  resume-Keeps ActionAuthorizationDecision.block step s =
      bind-Keeps (shift_waiting_step now AgentRunStepStatus.blocked reason step) _ s
        (waiting_step-Keeps now AgentRunStepStatus.blocked reason step s)
        (settle_run-Keeps AgentRunStatus.blocked reason)

  apply_to_step-Keeps :
      (found : Option AgentRunStep) (decision : ActionAuthorizationDecision) (s : TrustStore)
      → Keeps s (apply_to_step found now decision actor reason run s)
  apply_to_step-Keeps none decision s = record { kept = same_store s }
  apply_to_step-Keeps (some step) decision s =
      either_branch (Keeps s) (step.run_id != run.id) _ _ (record { kept = same_store s })
        (resume-Keeps decision step s)

apply_to_run-Keeps :
    (found : Option AgentRun) (now : Instant) (step_id : String)
    (decision : ActionAuthorizationDecision) (actor reason : String) (s : TrustStore)
    → Keeps s (apply_to_run found now step_id decision actor reason s)
apply_to_run-Keeps none now step_id decision actor reason s = record { kept = same_store s }
apply_to_run-Keeps (some run) now step_id decision actor reason s =
    apply_to_step-Keeps now actor reason run (get step_id s.steps) decision s

pub apply-Keeps :
    (now : Instant) (action : ProposedAction) (decision : ActionAuthorizationDecision)
    (actor reason : String) (s : TrustStore)
    → Keeps s (apply_durable_run_decision now action decision actor reason s)
unfolding apply_durable_run_decision
apply-Keeps now action decision actor reason s =
    either_branch (Keeps s) (not (is_set action.run_id)) _ _ (record { kept = same_store s })
      (apply_to_run-Keeps (get (or_empty action.run_id) s.runs) now action.step_id decision actor
        reason s)
