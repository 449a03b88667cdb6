-- ===== src/Trust/Service/Charge.antt =====
-- What a consumption rests on and what it costs (trust_consumption.py: consume_effective_action).
use aixion_control_tower.Prelude.{
  ◌+◌, ◌≡◌, ◌⊎◌, refl, sym, ap, ◌∙◌, true, false, not, ◌&&◌, Option, none, some, String, arith, inl,
  inr, ◌!=◌, Bool-cases, if◌then◌else◌, eq_iff, or_empty,
}
use aixion_control_tower.Prelude.Exec.{Error, ok}
use aixion_control_tower.Prelude.Dict.{get, get-put_self}
use aixion_control_tower.AgentRun.Models.{Instant}
use aixion_control_tower.Trust.Models.{
  CapabilityLeaseStatus, PolicyDecisionType, lease_status_eq, decision_type_eq,
}
use aixion_control_tower.Trust.Leases.{
  CapabilityLease, ProposedAction, ActionConsumption, lease_keyed, action_keyed,
}
use aixion_control_tower.Trust.Records.{RecordedDecision, RecordedConsumption, consumption_keyed}
use aixion_control_tower.Trust.State.{Outside, TrustStore, first_raised, record_event}
use aixion_control_tower.Trust.Service.Lifecycle.{refresh_lease_status}
use aixion_control_tower.Trust.Service.Moves.{WithinBudget}
use aixion_control_tower.Trust.Service.Writes.{first_raised-none}
use aixion_control_tower.Trust.Service.Consume.{
  project_use, budget_guards, consume_unless, consume_under, consume_once, consume_decided,
  consume_found, consume_effective_action, is_human, verify_human_allow, latest_policy_decision,
}

-- The lease after a use of it, which is added to what it has used and is within its budgets.
pub record Added (c : ActionConsumption) (before after : CapabilityLease) : Type 0 where
  pub runtime :
      after.consumed_runtime_seconds ≡ before.consumed_runtime_seconds + c.actual_runtime_seconds
  pub cost : after.consumed_cost_usd ≡ before.consumed_cost_usd + c.actual_cost_usd
  pub pull_requests :
      after.consumed_pull_requests ≡ before.consumed_pull_requests + c.pull_requests_created
  pub retries :
      after.consumed_retries ≡ before.consumed_retries + (if c.retry_consumed then 1 else 0)
  pub scope : after.scope ≡ before.scope
  pub within : WithinBudget after

-- A use that is charged, once, to the lease of the action, which is ACTIVE when it is refreshed.
pub record Charged (o : Outside) (now : Instant) (action : ProposedAction) (c : ActionConsumption)
    (s t : TrustStore) : Type 0 where
  pub lease : CapabilityLease
  pub found : get (or_empty action.lease_id) s.leases ≡ some lease
  pub active : (refresh_lease_status o now lease s).0.status ≡ CapabilityLeaseStatus.active
  pub after : CapabilityLease
  pub added : Added c (refresh_lease_status o now lease s).0 after
  pub stored : get (refresh_lease_status o now lease s).0.id t.leases ≡ some after
  pub first : get action.id s.consumptions ≡ none
  pub recorded :
      get action.id t.consumptions ≡ some (record { action_id = action.id; consumption = c })

-- A use that was charged before: nothing changes.
pub record ChargedBefore (action : ProposedAction) (r : ActionConsumption) (s t : TrustStore)
    : Type 0 where
  pub existing : RecordedConsumption
  pub found : get action.id s.consumptions ≡ some existing
  pub answer : existing.consumption ≡ r
  pub unchanged : t ≡ s

-- The action is known, its latest decision is ALLOW, with the signed record of the human if a human
-- took it, and its use is charged.
pub record Paid (o : Outside) (now : Instant) (action_id : String) (c r : ActionConsumption)
    (s t : TrustStore) : Type 0 where
  pub action : ProposedAction
  pub known : get action_id s.actions ≡ some action
  pub decision : RecordedDecision
  pub latest : latest_policy_decision action.id s.decisions ≡ some decision
  pub allowed : decision.verdict.decision ≡ PolicyDecisionType.allow
  pub signed : (is_human decision ≡ false) ⊎ (verify_human_allow o action s.authorizations ≡ true)
  pub charged : Charged o now action c s t ⊎ ChargedBefore action r s t

module _ (o : Outside) (now : Instant) where
  -- The store after the lease is refreshed has the same consumptions.
  refresh_consumptions :
      (lease : CapabilityLease) (s : TrustStore)
      → (refresh_lease_status o now lease s).1.consumptions ≡ s.consumptions
  unfolding refresh_lease_status record_event
  refresh_consumptions lease s = ground arith

  added_lem :
      (c : ActionConsumption) (lease : CapabilityLease)
      → first_raised (budget_guards lease (project_use now c lease)) ≡ none
      → (lease.status ≡ CapabilityLeaseStatus.active) × Added c lease (project_use now c lease)
  added_lem c lease why =
      let (active, (runtime, (cost, (prs, (retries, _))))) =
        first_raised-none (budget_guards lease (project_use now c lease)) why in
      (
        ground (arith, active, eq_iff lease.status CapabilityLeaseStatus.active),
        record {
          runtime = refl;
          cost = refl;
          pull_requests = refl;
          retries = refl;
          scope = refl;
          within = record {
            runtime = ground (arith, runtime);
            cost = ground (arith, cost);
            pull_requests = ground (arith, prs);
            retries = ground (arith, retries);
          };
        },
      )

  unless-Charged :
      (refusal : Option Error) (action : ProposedAction) (decision : RecordedDecision)
      (c r : ActionConsumption) (actor : String) (lease : CapabilityLease) (s t : TrustStore)
      → get (or_empty action.lease_id) s.leases ≡ some lease
      → get action.id s.consumptions ≡ none
      → let (fresh, u) = refresh_lease_status o now lease s in
        first_raised (budget_guards fresh (project_use now c fresh)) ≡ refusal
        → consume_unless refusal o now action decision c actor fresh u ≡ (ok r, t)
        → Charged o now action c s t
  unfolding record_event
  unless-Charged (some e) action decision c r actor lease s t there first why h = ground (arith, h)
  unless-Charged none action decision c r actor lease s t there first why h =
      let (fresh, u) = refresh_lease_status o now lease s in
      let (active, added) = added_lem c fresh why in
      let entry : RecordedConsumption = record { action_id = action.id; consumption = c } in
      record {
        lease = lease;
        found = there;
        active = active;
        after = project_use now c fresh;
        added = added;
        stored =
            ap (get fresh.id) (sym (ap (λ q. q.1.leases) h))
            ∙ get-put_self (project_use now c fresh) fresh.id u.leases refl;
        first = first;
        recorded =
            ap (get action.id) (sym (ap (λ q. q.1.consumptions) h))
            ∙ get-put_self entry action.id u.consumptions refl;
      }

  under-Charged :
      (found : Option CapabilityLease) (action : ProposedAction) (decision : RecordedDecision)
      (c r : ActionConsumption) (actor : String) (s t : TrustStore)
      → get (or_empty action.lease_id) s.leases ≡ found
      → get action.id s.consumptions ≡ none
      → consume_under found o now action decision c actor s ≡ (ok r, t)
      → Charged o now action c s t
  under-Charged none action decision c r actor s t there first h = ground (arith, h)
  under-Charged (some lease) action decision c r actor s t there first h =
      unless-Charged _ action decision c r actor lease s t there first refl h

  once-Charged :
      (found : Option RecordedConsumption) (action : ProposedAction) (decision : RecordedDecision)
      (c r : ActionConsumption) (actor : String) (s t : TrustStore)
      → get action.id s.consumptions ≡ found
      → consume_once found o now action decision c actor s ≡ (ok r, t)
      → Charged o now action c s t ⊎ ChargedBefore action r s t
  once-Charged none action decision c r actor s t there h =
      inl (under-Charged _ action decision c r actor s t refl there h)
  once-Charged (some existing) action decision c r actor s t there h = inr (record {
    existing = existing;
    found = there;
    answer = ground (arith, h);
    unchanged = ground (arith, h);
  })

  decided-Paid :
      (found : Option RecordedDecision) (action_id : String) (action : ProposedAction)
      (c r : ActionConsumption) (actor : String) (s t : TrustStore)
      → get action_id s.actions ≡ some action
      → latest_policy_decision action.id s.decisions ≡ found
      → consume_decided found o now action c actor s ≡ (ok r, t)
      → Paid o now action_id c r s t
  decided-Paid none action_id action c r actor s t there latest h = ground (arith, h)
  decided-Paid (some decision) action_id action c r actor s t there latest h =
      elim (Bool-cases (decision.verdict.decision != PolicyDecisionType.allow)) [
        | inl refused ↦ ground (arith, rw refused at h)
        | inr allowed ↦
            elim (Bool-cases
              (is_human decision && not (verify_human_allow o action s.authorizations))) [
                | inl unsigned ↦ ground (arith, rw (allowed, unsigned) at h)
                | inr signed ↦ record {
                  action = action;
                  known = there;
                  decision = decision;
                  latest = latest;
                  allowed =
                      ground
                        (arith, allowed, eq_iff decision.verdict.decision PolicyDecisionType.allow);
                  signed = elim (Bool-cases (is_human decision)) [
                    | inl human ↦ inr (ground (arith, signed, human))
                    | inr machine ↦ inl machine
                  ];
                  charged =
                      once-Charged (get action.id s.consumptions) action decision c r actor s t refl
                        (rw (allowed, signed) at h);
                }
              ]
      ]

  found-Paid :
      (found : Option ProposedAction) (action_id : String) (c r : ActionConsumption)
      (actor : String) (s t : TrustStore)
      → get action_id s.actions ≡ found
      → consume_found found o now c actor s ≡ (ok r, t)
      → Paid o now action_id c r s t
  found-Paid none action_id c r actor s t there h = ground (arith, h)
  found-Paid (some action) action_id c r actor s t there h =
      decided-Paid (latest_policy_decision action.id s.decisions) action_id action c r actor s t
        there refl h

  -- An action is consumed only if its latest decision is ALLOW, with a signed record if that decision
  -- is a human's. The first time, its use is added to what the action's lease, ACTIVE once refreshed, has
  -- used, within its budgets, and is recorded; if it was recorded before, nothing changes.
  pub consume_effective_action-Paid :
      (action_id : String) (c r : ActionConsumption) (actor : String) (s t : TrustStore)
      → consume_effective_action o now action_id c actor s ≡ (ok r, t)
      → Paid o now action_id c r s t
  unfolding consume_effective_action
  consume_effective_action-Paid action_id c r actor s t h =
      found-Paid (get action_id s.actions) action_id c r actor s t refl h
