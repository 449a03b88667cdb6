-- ===== src/Trust/Runs/StepTrustLaws.antt =====
-- The trust check before a step (agent_run_trust.py: authorize_run_step).
use aixion_control_tower.Prelude.{
  ℕ, ◌+◌, ◌≤◌, ◌≡◌, refl, ap, true, Option, none, some, List, [], ◌∷◌, String, arith, inl, inr,
  or_empty, is_set, contains, string_eq, option_eq, Bool-cases, Option-cases,
}
use aixion_control_tower.Prelude.Lists.{is_nil}
use mathlib.Core.Path.{subst}
use aixion_control_tower.AgentRun.Models.{Instant, AgentRun, AgentRunStep}
use aixion_control_tower.Trust.Leases.{ProposedAction}
use aixion_control_tower.Prelude.Exec.{
  Exec, Result, Error, ok, err, continue, ◌>>=◌, ◌>>◌, pure, raise, conflict,
}
use aixion_control_tower.Prelude.Dict.{get}
use aixion_control_tower.AgentRun.Models.{
  AgentRunEventType, AgentRunStepStatus, AgentRunStatus, step_type_eq,
}
use aixion_control_tower.Trust.Runs.Authorize.{
  approval_reason, shift_waiting_step, shift_waiting_run,
}
use aixion_control_tower.Prelude.Text.{concat, join_spaced}
use aixion_control_tower.Trust.Models.{PolicyDecisionType}
use aixion_control_tower.Trust.Leases.{CapabilityLease, lease_keyed, action_keyed}
use aixion_control_tower.Trust.Records.{RecordedDecision}
use aixion_control_tower.Trust.State.{Outside, TrustStore}
use aixion_control_tower.Trust.Service.Lifecycle.{refresh_lease_status}
use aixion_control_tower.Trust.Runs.Store.{append_run_event}
use aixion_control_tower.Trust.Runs.Attach.{side_effect_steps, lease_reasons}
use aixion_control_tower.Trust.Runs.Actions.{
  total, is_pull_request, step_actions, preflight_aggregate_budget,
}
use aixion_control_tower.Trust.Runs.Bound.{BoundTo, lease_reasons-BoundTo}
use aixion_control_tower.Trust.Runs.StepTrust.{
  mark_blocked, mark_needs_human, decision_on, follow_decision, judge_decision, authorize_action,
  authorize_actions, release_waiting, authorize_planned, authorize_under, authorize_run_step,
}

-- A chain of calls that succeeds, succeeds in its parts.
pub record Both {A B : Type 0} (m : Exec TrustStore A) (f : A → Exec TrustStore B)
    (s t : TrustStore) (b : B) : Type 0 where
  pub value : A
  pub middle : TrustStore
  pub before : m s ≡ (ok value, middle)
  pub after : f value middle ≡ (ok b, t)

continue-ok :
    {A B : Type 0} (r : Result A) (m : Exec TrustStore A) (f : A → Exec TrustStore B)
    (s u t : TrustStore) (b : B)
    → m s ≡ (r, u)
    → continue r f u ≡ (ok b, t)
    → Both m f s t b
continue-ok (ok a) m f s u t b e h = record { value = a; middle = u; before = e; after = h }
continue-ok (err x) m f s u t b e h = ground (arith, h)

bind-ok :
    {A B : Type 0} (m : Exec TrustStore A) (f : A → Exec TrustStore B) (s t : TrustStore) (b : B)
    → (m >>= f) s ≡ (ok b, t)
    → Both m f s t b
bind-ok m f s t b h = continue-ok (m s).0 m f s (m s).1 t b refl h

-- Whatever comes before, an error at the end is an error.
raise_after :
    {A B : Type 0} (m : Exec TrustStore A) (e : Error) (s t : TrustStore) (b : B)
    → ¬ ((m >> raise e) s ≡ (ok b, t))
raise_after m e s t b h = let both = bind-ok m (λ _. raise e) s t b h in ground (arith, both.after)

module _ (o : Outside) (now : Instant) (run : AgentRun) (step : AgentRunStep) (actor : String) where
  -- Every action in turn got the decision ALLOW, which was told as a run event.
  pub data Allowed : List ProposedAction → TrustStore → TrustStore → Type 0 where
    no_more : {s : TrustStore} → Allowed [] s s
    allowed_next :
        {action : ProposedAction} {rest : List ProposedAction} {s t u v : TrustStore}
        (decision : RecordedDecision)
        → decision_on (get action.id s.actions) o now run step actor action s ≡ (ok decision, t)
        → decision.verdict.decision ≡ PolicyDecisionType.allow
        → append_run_event run (some step) AgentRunEventType.trust_policy_evaluated "" actor t
          ≡ (ok tt, u)
        → Allowed rest u v
        → Allowed (action ∷ rest) s v

  follow-allow :
      (d : PolicyDecisionType) (action_id : String) (s t : TrustStore)
      → follow_decision d now run step actor action_id s ≡ (ok tt, t)
      → (d ≡ PolicyDecisionType.allow) × (t ≡ s)
  follow-allow PolicyDecisionType.allow action_id s t h = (refl, ground (arith, h))
  follow-allow PolicyDecisionType.block action_id s t h = absurd (
      raise_after (mark_blocked now run step actor "Trust policy blocked execution: ") conflict s t
        tt h)
  follow-allow PolicyDecisionType.require_approval action_id s t h = absurd (
      raise_after
        (mark_needs_human now run step actor
          (concat "Exact action approval is required before execution: " action_id))
        conflict s t tt h)

  authorize_actions-Allowed :
      (actions : List ProposedAction) (s t : TrustStore)
      → authorize_actions o now run step actor actions s ≡ (ok tt, t)
      → Allowed actions s t
  authorize_actions-Allowed [] s t h = subst (Allowed [] s) (ap (λ r. r.1) h) no_more
  authorize_actions-Allowed (action ∷ rest) s t h =
      let head =
        bind-ok (authorize_action o now run step actor action)
          (λ _. authorize_actions o now run step actor rest) s t tt h in
      let first =
        bind-ok (decision_on (get action.id s.actions) o now run step actor action)
          (judge_decision now run step actor action) s head.middle tt head.before in
      let told =
        bind-ok (append_run_event run (some step) AgentRunEventType.trust_policy_evaluated "" actor)
          (λ _. follow_decision first.value.verdict.decision now run step actor action.id)
          first.middle head.middle tt first.after in
      let (allowed, same) =
        follow-allow first.value.verdict.decision action.id told.middle head.middle told.after in
      allowed_next first.value first.before allowed told.before (
        subst (λ u. Allowed rest u t) same
          (authorize_actions-Allowed rest head.middle t head.after))

  -- What a step with side effects needs for a go-ahead: the run's lease, which once refreshed is made
  -- for the run, within it the total runtime, cost and pull requests of the actions, and ALLOW for
  -- every action.
  pub record Trusted (timeout_seconds : ℕ) (s : TrustStore) (actions : List ProposedAction)
      : Type 0 where
    pub lease : CapabilityLease
    pub found : get (or_empty run.capability_lease_id) s.leases ≡ some lease
    pub refreshed : CapabilityLease
    pub middle : TrustStore
    pub refresh : refresh_lease_status o now lease s ≡ (refreshed, middle)
    pub bound : BoundTo run refreshed middle
    pub planned : step_actions o run step timeout_seconds middle ≡ some actions
    pub runtime :
        refreshed.consumed_runtime_seconds + total (λ a. a.estimated_runtime_seconds) actions
        ≤ refreshed.scope.max_runtime_seconds
    pub cost :
        refreshed.consumed_cost_usd + total (λ a. a.estimated_cost_usd) actions
        ≤ refreshed.scope.max_cost_usd
    pub pull_requests :
        refreshed.consumed_pull_requests + total is_pull_request actions
        ≤ refreshed.scope.max_pull_requests
    pub last : TrustStore
    pub allowed : Allowed actions middle last

  planned-Trusted :
      (plan : Option (List ProposedAction)) (timeout_seconds : ℕ)
      (lease refreshed : CapabilityLease) (s u t : TrustStore) (actions : List ProposedAction)
      → get (or_empty run.capability_lease_id) s.leases ≡ some lease
      → refresh_lease_status o now lease s ≡ (refreshed, u)
      → BoundTo run refreshed u
      → step_actions o run step timeout_seconds u ≡ plan
      → authorize_planned plan o now run step actor refreshed u ≡ (ok actions, t)
      → Trusted timeout_seconds s actions
  unfolding preflight_aggregate_budget
  planned-Trusted none timeout_seconds lease refreshed s u t actions there fresh bound planned h =
      ground (arith, h)
  planned-Trusted (some plan) timeout_seconds lease refreshed s u t actions there fresh bound
        planned h =
      elim (Option-cases (preflight_aggregate_budget refreshed plan)) [
        | inr (reason, over) ↦ absurd (
            raise_after (mark_blocked now run step actor reason) conflict u t actions
              (rw (authorize_planned, over) at h))
        | inl within ↦
            let judged =
              bind-ok (authorize_actions o now run step actor plan)
                (λ _. release_waiting now run step plan) u t actions
                (rw (authorize_planned, within) at h) in
            let ended =
              bind-ok
                (shift_waiting_step now AgentRunStepStatus.ready approval_reason step
                  >> shift_waiting_run now AgentRunStatus.scheduled approval_reason run)
                (λ _. pure plan) judged.middle t actions judged.after in
            let same : plan ≡ actions = ground (arith, ended.after) in
            subst (Trusted timeout_seconds s) same (record {
              lease = lease;
              found = there;
              refreshed = refreshed;
              middle = u;
              refresh = fresh;
              bound = bound;
              planned = planned;
              runtime = ground (arith, within);
              cost = ground (arith, within);
              pull_requests = ground (arith, within);
              last = judged.middle;
              allowed = authorize_actions-Allowed plan u judged.middle judged.before;
            })
      ]

  under-Trusted :
      (found : Option CapabilityLease) (timeout_seconds : ℕ) (s t : TrustStore)
      (actions : List ProposedAction)
      → get (or_empty run.capability_lease_id) s.leases ≡ found
      → authorize_under found o now run step actor timeout_seconds s ≡ (ok actions, t)
      → Trusted timeout_seconds s actions
  under-Trusted none timeout_seconds s t actions there h = ground (arith, h)
  under-Trusted (some lease) timeout_seconds s t actions there h =
      let (refreshed, u) = refresh_lease_status o now lease s in
      let reasons = lease_reasons run refreshed u in
      elim (Bool-cases (is_nil reasons)) [
        | inr invalid ↦ absurd (
            raise_after (mark_blocked now run step actor (join_spaced reasons)) conflict u t actions
              (rw invalid at h))
        | inl valid ↦
            planned-Trusted (step_actions o run step timeout_seconds u) timeout_seconds lease
              refreshed s u t actions there refl (lease_reasons-BoundTo run refreshed u valid) refl
              (rw valid at h)
      ]

  -- Under trust enforcement a step with side effects gets its go-ahead only when the run has a lease
  -- that is ACTIVE and made for the run, and for the agent of its task if it names one, the total runtime,
  -- cost and pull requests of the actions are within what the lease has left, and every action got the
  -- decision ALLOW.
  pub authorize_run_step-Trusted :
      (timeout_seconds : ℕ) (s t : TrustStore) (actions : List ProposedAction)
      → contains step.step_type side_effect_steps ≡ true
      → authorize_run_step o true now run step actor timeout_seconds s ≡ (ok actions, t)
      → Trusted timeout_seconds s actions
  unfolding authorize_run_step
  authorize_run_step-Trusted timeout_seconds s t actions effects h =
      let h1 = rw effects at h in
      let set : is_set run.capability_lease_id ≡ true = ground (arith, h1) in
      under-Trusted (get (or_empty run.capability_lease_id) s.leases) timeout_seconds s t actions
        refl (rw set at h1)
