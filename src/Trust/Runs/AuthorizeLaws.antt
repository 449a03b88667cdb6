-- ===== src/Trust/Runs/AuthorizeLaws.antt =====
-- Human decisions on exact actions (trust_action_authorization.py), and what consumption asks of them.
use aixion_control_tower.Prelude.{
  ◌+◌, ◌<◌, ◌≡◌, refl, ap, ◌∙◌, Bool, true, false, not, none, some, List, [], ◌∷◌, ◌++◌, String,
  arith, inl, inr, ◌==◌, contains, eq_iff, eq_refl, string_eq, Bool-cases, either_branch,
  if◌then◌else◌,
}
use aixion_control_tower.Prelude.Lists.{keep, find_first, All}
use mathlib.Core.Path.{subst}
use aixion_control_tower.Prelude.Exec.{ok, pure}
use aixion_control_tower.Prelude.Dict.{get, put-fresh}
use aixion_control_tower.AgentRun.Models.{Instant, run_status_eq, step_status_eq}
use aixion_control_tower.AgentRun.Supervisor.State.{run_keyed, step_keyed}
use aixion_control_tower.Trust.Models.{PolicyDecisionType, decision_type_eq}
use aixion_control_tower.Trust.Leases.{ProposedAction, action_keyed}
use aixion_control_tower.Trust.Records.{
  AuthUser, ActionAuthorization, ActionAuthorizationCreate, ActionAuthorizationDecision,
  RecordedDecision, user_role_eq, authorization_decision_eq, authorization_keyed, decision_keyed,
}
use aixion_control_tower.Trust.State.{Outside, TrustStore, record_event}
use aixion_control_tower.Trust.Service.Consume.{
  is_before, latest_from, latest_of, latest_policy_decision, verify_action_authorization,
  verify_human_allow,
}
use aixion_control_tower.Trust.Service.ConsumeLaws.{Kept}
use aixion_control_tower.Trust.Runs.Authorize.{
  reviewer_roles, apply_durable_run_decision, new_authorization, superseding, write_authorization,
  effective_decision, record_action_authorization,
}
use aixion_control_tower.Trust.Runs.Keeps.{same_store, bind-Keeps, apply-Keeps}

-- The last of the decisions is the latest if it is after each of them.
latest_from-last :
    (best e : RecordedDecision) (xs : List RecordedDecision)
    → is_before best e ≡ true
    → All (λ x. is_before x e ≡ true) xs
    → latest_from best (xs ++ e ∷ []) ≡ e
latest_from-last best e [] h k = rw h refl
latest_from-last best e (x ∷ xs) h k =
    latest_from-last (if is_before best x then x else best) e xs
      (either_branch (λ b. is_before b e ≡ true) (is_before best x) x best k.0 h) k.1

latest_of-last :
    (e : RecordedDecision) (xs : List RecordedDecision)
    → All (λ x. is_before x e ≡ true) xs
    → latest_of (xs ++ e ∷ []) ≡ some e
latest_of-last e [] h = refl
latest_of-last e (x ∷ xs) h = ap some (latest_from-last x e xs h.0 h.1)

keep-last :
    {A : Type 0} (p : A → Bool) (xs : List A) (x : A)
    → p x ≡ true
    → keep p (xs ++ x ∷ []) ≡ keep p xs ++ x ∷ []
keep-last p [] x h = rw h refl
keep-last p (y ∷ ys) x h = ground (arith, keep-last p ys x h)

before_all :
    (e : RecordedDecision) (p : RecordedDecision → Bool) (xs : List RecordedDecision)
    → All (λ x. x.evaluated_at < e.evaluated_at) xs
    → All (λ x. is_before x e ≡ true) (keep p xs)
before_all e p [] h = tt
before_all e p (x ∷ xs) h =
    let rest = before_all e p xs h.1 in
    either_branch (All (λ x. is_before x e ≡ true)) (p x) (x ∷ keep p xs) (keep p xs)
      (ground (arith, h.0), rest) rest

find_first-last :
    {A : Type 0} (p : A → Bool) (xs : List A) (x : A)
    → find_first p xs ≡ none
    → p x ≡ true
    → find_first p (xs ++ x ∷ []) ≡ some x
find_first-last p [] x h t = rw t refl
find_first-last p (y ∷ ys) x h t = ground (arith, find_first-last p ys x)

-- What a consumption asks of an action that a human allowed.
pub record HumanAllowed (o : Outside) (action : ProposedAction) (t : TrustStore) : Type 0 where
  pub effective : RecordedDecision
  pub latest : latest_policy_decision action.id t.decisions ≡ some effective
  pub allowed : effective.verdict.decision ≡ PolicyDecisionType.allow
  pub signed : verify_human_allow o action t.authorizations ≡ true

module _ (o : Outside) (now : Instant) (action : ProposedAction)
    (payload : ActionAuthorizationCreate) (user : AuthUser) (current : RecordedDecision)
    (s : TrustStore) (allows : payload.decision ≡ ActionAuthorizationDecision.allow)
    (fresh_authorization : get (o.new_id "action_authorization" s.drawn) s.authorizations ≡ none)
    (fresh_decision : get (o.new_id "decision" (s.drawn + 1)) s.decisions ≡ none)
    (first : find_first (λ item. item.material.action_id == action.id) s.authorizations ≡ none)
    (earlier : All (λ d. d.evaluated_at < now) s.decisions) where
  written-HumanAllowed :
      (t : TrustStore)
      → Kept (write_authorization o now action payload user current s) t
      → HumanAllowed o action t
  unfolding latest_policy_decision verify_human_allow verify_action_authorization record_event
  written-HumanAllowed t k =
      let authorization = new_authorization o now s.drawn action payload user current in
      let effective = superseding o now (s.drawn + 1) action payload current in
      let about = λ (d : RecordedDecision). d.verdict.proposed_action_id == action.id in
      let of_action = λ (item : ActionAuthorization). item.material.action_id == action.id in
      let decisions : t.decisions ≡ s.decisions ++ effective ∷ [] =
        k.decisions ∙ put-fresh effective s.decisions fresh_decision in
      let authorizations : t.authorizations ≡ s.authorizations ++ authorization ∷ [] =
        k.authorizations ∙ put-fresh authorization s.authorizations fresh_authorization in
      let found : find_first of_action t.authorizations ≡ some authorization =
        ap (find_first of_action) authorizations
        ∙ find_first-last of_action s.authorizations authorization first (eq_refl action.id) in
      record {
        effective = effective;
        latest =
            ap (λ ds. latest_of (keep about ds)) decisions
            ∙ ap latest_of (keep-last about s.decisions effective (eq_refl action.id))
            ∙ latest_of-last effective (keep about s.decisions)
                (before_all effective about s.decisions earlier);
        allowed = ap effective_decision allows;
        signed =
            rw (verify_human_allow, found)
              (ground (
                arith,
                allows,
                eq_refl action.id,
                eq_refl (o.action_hash action),
                eq_refl (o.sign_authorization authorization.material),
                eq_iff payload.decision ActionAuthorizationDecision.allow,
              ));
      }

  -- After a reviewer's first decision to ALLOW an action that policy escalated, with every earlier
  -- decision evaluated before, the latest decision on the action is ALLOW and the signed record that a
  -- consumption asks for is there, valid for exactly this action.
  pub record_action_authorization-HumanAllowed :
      (action_id : String) (t : TrustStore) (a : ActionAuthorization)
      → get action_id s.actions ≡ some action
      → latest_policy_decision action.id s.decisions ≡ some current
      → current.verdict.decision ≡ PolicyDecisionType.require_approval
      → record_action_authorization o now action_id payload user s ≡ (ok a, t)
      → HumanAllowed o action t
  unfolding record_action_authorization
  record_action_authorization-HumanAllowed action_id t a there latest escalated h =
      let written = write_authorization o now action payload user current s in
      let decided = current.verdict.decision in
      let not_block : (decided == PolicyDecisionType.block) ≡ false =
        ground (arith, escalated, eq_iff decided PolicyDecisionType.block) in
      let not_allow : (decided == PolicyDecisionType.allow) ≡ false =
        ground (arith, escalated, eq_iff decided PolicyDecisionType.allow) in
      elim (Bool-cases (not (contains user.role reviewer_roles))) [
        | inl outsider ↦ ground (arith, rw outsider at h)
        | inr reviewer ↦
            let run = rw (reviewer, there, latest, not_block, not_allow, first) at h in
            let applied =
              bind-Keeps
                (apply_durable_run_decision now action payload.decision user.email payload.reason)
                (λ _. pure (new_authorization o now s.drawn action payload user current)) written
                (apply-Keeps now action payload.decision user.email payload.reason written)
                (λ _ u. record { kept = same_store u }) in
            written-HumanAllowed t (subst (Kept written) (ap (λ q. q.1) run) applied.kept)
      ]
