-- ===== src/Trust/Service/ConsumeLaws.antt =====
-- Consumption of an allowed action (trust_consumption.py: consume_effective_action).
use aixion_control_tower.Prelude.{
  ◌≡◌, refl, sym, ap, ◌∙◌, not, ◌&&◌, Option, none, some, String, arith, inl, inr, ◌!=◌, Bool-cases,
  if◌then◌else◌,
}
use aixion_control_tower.Prelude.Exec.{Error, Result, ok, err, conflict}
use aixion_control_tower.Prelude.Dict.{get, put, get-put_self}
use aixion_control_tower.AgentRun.Models.{Instant}
use aixion_control_tower.Trust.Models.{PolicyDecisionType, lease_status_eq, decision_type_eq}
use aixion_control_tower.Trust.Leases.{
  CapabilityLease, ProposedAction, ActionConsumption, lease_keyed, action_keyed,
}
use aixion_control_tower.Trust.Records.{RecordedDecision, RecordedConsumption, consumption_keyed}
use aixion_control_tower.Trust.State.{Outside, TrustStore, record_event}
use aixion_control_tower.Trust.Service.Lifecycle.{refresh_lease_status}
use aixion_control_tower.Trust.Service.Consume.{
  consume_unless, consume_under, consume_once, consume_decided, consume_found,
  consume_effective_action, is_human, verify_human_allow, same_consumption, latest_policy_decision,
}

-- What stays of a store when a lease is refreshed or an action consumed.
pub record Kept (s t : TrustStore) : Type 0 where
  pub actions : t.actions ≡ s.actions
  pub decisions : t.decisions ≡ s.decisions
  pub authorizations : t.authorizations ≡ s.authorizations

module _ (o : Outside) where
  refreshed-Kept :
      (now : Instant) (lease : CapabilityLease) (s : TrustStore)
      → Kept s (refresh_lease_status o now lease s).1
  unfolding refresh_lease_status record_event
  refreshed-Kept now lease s = record {
    actions = ground arith;
    decisions = ground arith;
    authorizations = ground arith;
  }

  -- The consumption is recorded, and the rest that a consumption depends on is as it was.
  pub record Recorded (action_id : String) (c : ActionConsumption) (s t : TrustStore) : Type 0 where
    pub kept : Kept s t
    pub recorded : RecordedConsumption
    pub found : get action_id t.consumptions ≡ some recorded
    pub same : recorded.consumption ≡ c

  unless-Recorded :
      (refusal : Option Error) (now : Instant) (action : ProposedAction)
      (decision : RecordedDecision) (c r : ActionConsumption) (actor : String)
      (lease : CapabilityLease) (s t : TrustStore)
      → consume_unless refusal o now action decision c actor lease s ≡ (ok r, t)
      → Recorded action.id r s t
  unfolding record_event
  unless-Recorded (some e) now action decision c r actor lease s t h = ground (arith, h)
  unless-Recorded none now action decision c r actor lease s t h =
      let entry : RecordedConsumption = record { action_id = action.id; consumption = c } in
      let its : c ≡ r = ground (arith, h) in
      let stored : put entry s.consumptions ≡ t.consumptions = ap (λ q. q.1.consumptions) h in
      record {
        kept = record {
          actions = sym (ap (λ q. q.1.actions) h);
          decisions = sym (ap (λ q. q.1.decisions) h);
          authorizations = sym (ap (λ q. q.1.authorizations) h);
        };
        recorded = entry;
        found = ap (get action.id) (sym stored) ∙ get-put_self entry action.id s.consumptions refl;
        same = its;
      }

  under-Recorded :
      (found : Option CapabilityLease) (now : Instant) (action : ProposedAction)
      (decision : RecordedDecision) (c r : ActionConsumption) (actor : String) (s t : TrustStore)
      → consume_under found o now action decision c actor s ≡ (ok r, t)
      → Recorded action.id r s t
  under-Recorded none now action decision c r actor s t h = ground (arith, h)
  under-Recorded (some lease) now action decision c r actor s t h =
      let (after, u) = refresh_lease_status o now lease s in
      let k = refreshed-Kept now lease s in
      let w = unless-Recorded _ now action decision c r actor after u t h in
      record {
        kept = record {
          actions = w.kept.actions ∙ k.actions;
          decisions = w.kept.decisions ∙ k.decisions;
          authorizations = w.kept.authorizations ∙ k.authorizations;
        };
        recorded = w.recorded;
        found = w.found;
        same = w.same;
      }

  once-Recorded :
      (found : Option RecordedConsumption) (now : Instant) (action : ProposedAction)
      (decision : RecordedDecision) (c r : ActionConsumption) (actor : String) (s t : TrustStore)
      → get action.id s.consumptions ≡ found
      → consume_once found o now action decision c actor s ≡ (ok r, t)
      → Recorded action.id r s t
  once-Recorded none now action decision c r actor s t there h =
      under-Recorded _ now action decision c r actor s t h
  once-Recorded (some existing) now action decision c r actor s t there h =
      let same : t ≡ s = ground (arith, h) in
      record {
        kept = record {
          actions = ap (λ (q : TrustStore). q.actions) same;
          decisions = ap (λ (q : TrustStore). q.decisions) same;
          authorizations = ap (λ (q : TrustStore). q.authorizations) same;
        };
        recorded = existing;
        found = ap (λ (q : TrustStore). get action.id q.consumptions) same ∙ there;
        same = ground (arith, h);
      }

  -- What the second call answers.
  abbrev pub answer_again :
      ActionConsumption → ActionConsumption → TrustStore → Result ActionConsumption × TrustStore
  answer_again r c t = if same_consumption r c then (ok r, t) else (err conflict, t)

  decided-again :
      (found : Option RecordedDecision) (now later : Instant) (action : ProposedAction)
      (c r c' : ActionConsumption) (actor actor' : String) (s t : TrustStore)
      → consume_decided found o now action c actor s ≡ (ok r, t)
      → (consume_decided found o later action c' actor' t ≡ answer_again r c' t) × Kept s t
  decided-again none now later action c r c' actor actor' s t h = ground (arith, h)
  decided-again (some decision) now later action c r c' actor actor' s t h =
      elim (Bool-cases (decision.verdict.decision != PolicyDecisionType.allow)) [
        | inl refused ↦ ground (arith, rw refused at h)
        | inr allowed ↦
            elim (Bool-cases
              (is_human decision && not (verify_human_allow o action s.authorizations))) [
                | inl unsigned ↦ ground (arith, rw (allowed, unsigned) at h)
                | inr signed ↦
                    let w =
                      once-Recorded _ now action decision c r actor s t refl
                        (rw (allowed, signed) at h) in
                    (
                      rw (allowed, w.kept.authorizations, signed, w.found, w.same) (ground arith),
                      w.kept,
                    )
              ]
      ]

  found-again :
      (found : Option ProposedAction) (now later : Instant) (c r c' : ActionConsumption)
      (actor actor' : String) (s t : TrustStore)
      → consume_found found o now c actor s ≡ (ok r, t)
      → (consume_found found o later c' actor' t ≡ answer_again r c' t) × Kept s t
  found-again none now later c r c' actor actor' s t h = ground (arith, h)
  found-again (some action) now later c r c' actor actor' s t h =
      let (again, kept) =
        decided-again (latest_policy_decision action.id s.decisions) now later action c r c' actor
          actor' s t h in
      (
        ap (λ ds. consume_decided (latest_policy_decision action.id ds) o later action c' actor' t)
              kept.decisions
            ∙ again,
        kept,
      )

  -- A consumption is recorded once: after a call that succeeds, any later call for the action answers
  -- the recorded consumption if it is given the same one and a conflict otherwise, and changes nothing.
  pub consume_effective_action_once :
      (now later : Instant) (action_id : String) (c r c' : ActionConsumption)
      (actor actor' : String) (s t : TrustStore)
      → consume_effective_action o now action_id c actor s ≡ (ok r, t)
      → consume_effective_action o later action_id c' actor' t ≡ answer_again r c' t
  unfolding consume_effective_action
  consume_effective_action_once now later action_id c r c' actor actor' s t h =
      let (again, kept) =
        found-again (get action_id s.actions) now later c r c' actor actor' s t h in
      ap (λ actions. consume_found (get action_id actions) o later c' actor' t) kept.actions ∙ again
