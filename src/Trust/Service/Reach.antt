-- ===== src/Trust/Service/Reach.antt =====
-- The stores that the operations of trust_service.py, trust_consumption.py and trust_credentials.py
-- lead to.
use aixion_control_tower.Prelude.{
  ℕ, ◌+◌, ◌≤◌, ◌≡◌, refl, sym, ap, ◌∙◌, false, some, List, String, arith, inl, inr, ◌==◌, eq_iff,
  string_eq, Bool-cases, if◌then◌else◌,
}
use mathlib.Core.Option.{some-injective, none-ne-some}
use aixion_control_tower.Prelude.Dict.{get, put, get-put, get-put_self, All-get}
use aixion_control_tower.AgentRun.Models.{Instant}
use aixion_control_tower.Approvals.Models.{ApprovalRequest}
use aixion_control_tower.Tasks.Models.{AgentTask}
use aixion_control_tower.Trust.Models.{CapabilityLeaseStatus, lease_status_eq}
use aixion_control_tower.Trust.Leases.{
  CapabilityLease, ProposedAction, ActionConsumption, lease_keyed,
}
use aixion_control_tower.Trust.Records.{
  AuthUser, ReviewerAttestationCreate, CapabilityLeaseCreate, CredentialGrantCreate,
}
use aixion_control_tower.Trust.State.{Outside, TrustStore, record_event}
use aixion_control_tower.Trust.Service.Reviews.{record_reviewer_attestation}
use aixion_control_tower.Trust.Service.Issue.{issue_capability_lease}
use aixion_control_tower.Trust.Service.Lifecycle.{
  refresh_lease_status, revoke_lease, revoke_capability_lease, evaluate_gateway_action,
}
use aixion_control_tower.Trust.Service.Consume.{consume_effective_action}
use aixion_control_tower.Trust.Service.Credentials.{issue_credential_grant, revoke_credential_grant}
use aixion_control_tower.Trust.Service.Moves.{
  WithinBudget, Move, Move.tell, Move.renew, Move.revoke, Move.issue, Move.grant, Move.drop_grant,
  Move.other, Moves, Moves.none_made, Moves.next,
}
use aixion_control_tower.Trust.Service.Sound.{Move-Sound, Moves-Sound}
use aixion_control_tower.Trust.Service.Covered.{DistinctIds, Sound, fresh}
use aixion_control_tower.Trust.Service.Writes.{
  refresh_lease_status-Refreshed, record_reviewer_attestation-Writes, issue_capability_lease-Writes,
  revoke_capability_lease-Writes, evaluate_gateway_action-Moves,
}
use aixion_control_tower.Trust.Service.UseWrites.{
  consume_effective_action-Writes, issue_credential_grant-Writes, revoke_credential_grant-Writes,
}

module _ (o : Outside) (gap : ℕ) where
  -- One call of an operation, whether it raises or not, where `issue_credential_grant` reads the clock
  -- twice within `gap`; or a change of the approvals, the tasks and
  -- the agents by other parts of the program.
  pub data Step : TrustStore → TrustStore → Type 0 where
    attests :
        {s : TrustStore} (now : Instant) (payload : ReviewerAttestationCreate) (user : AuthUser)
        → Step s (record_reviewer_attestation o now payload user s).1
    issues :
        {s : TrustStore} (now : Instant) (payload : CapabilityLeaseCreate) (user : AuthUser)
        → Step s (issue_capability_lease o now payload user s).1
    refreshes :
        {s : TrustStore} (now : Instant) (lease : CapabilityLease)
        → get lease.id s.leases ≡ some lease
        → Step s (refresh_lease_status o now lease s).1
    revokes :
        {s : TrustStore} (now : Instant) (user : AuthUser) (reason : String)
        (lease : CapabilityLease)
        → get lease.id s.leases ≡ some lease
        → Step s (revoke_capability_lease o now user reason lease s).1
    evaluates :
        {s : TrustStore} (now : Instant) (action : ProposedAction) (actor : String)
        → Step s (evaluate_gateway_action o now action actor s).1
    consumes :
        {s : TrustStore} (now : Instant) (action_id : String) (consumption : ActionConsumption)
        (actor : String)
        → Step s (consume_effective_action o now action_id consumption actor s).1
    grants_credential :
        {s : TrustStore} (now later : Instant) (payload : CredentialGrantCreate) (user : AuthUser)
        → later ≤ now + gap
        → Step s (issue_credential_grant o now later payload user s).1
    revokes_credential :
        {s : TrustStore} (now : Instant) (user : AuthUser) (reason grant_id : String)
        → Step s (revoke_credential_grant o now user reason grant_id s).1
    elsewhere :
        {s : TrustStore} (approvals : List ApprovalRequest) (tasks : List AgentTask)
        (external_agents : List String)
        → Step s
            (record s { approvals = approvals; tasks = tasks; external_agents = external_agents })

  pub data Steps : TrustStore → TrustStore → Type 0 where
    here : {s : TrustStore} → Steps s s
    step : {s t u : TrustStore} → Step s t → Steps t u → Steps s u

  within_at :
      {s : TrustStore} (lease : CapabilityLease)
      → Sound o gap s
      → get lease.id s.leases ≡ some lease
      → WithinBudget lease
  within_at {s} lease k there = All-get WithinBudget lease.id s.leases lease k.budgets there

  Step-Moves : {s t : TrustStore} → Step s t → Sound o gap s → Moves o gap s t
  Step-Moves {s} (attests now payload user) k =
      (record_reviewer_attestation-Writes o gap now payload user s).made
  Step-Moves {s} (issues now payload user) k =
      (issue_capability_lease-Writes o gap now payload user s).made
  Step-Moves {s} (refreshes now lease there) k =
      (refresh_lease_status-Refreshed o gap now lease s there (within_at lease k there)).made
  Step-Moves {s} (revokes now user reason lease there) k =
      (revoke_capability_lease-Writes o gap now user reason lease s there
        (within_at lease k there)).made
  Step-Moves {s} (evaluates now action actor) k =
      evaluate_gateway_action-Moves o gap now action actor s k.budgets
  Step-Moves {s} (consumes now action_id consumption actor) k =
      (consume_effective_action-Writes o gap now action_id consumption actor s k.budgets).made
  Step-Moves {s} (grants_credential now later payload user soon) k =
      (issue_credential_grant-Writes o gap now later payload user s k.budgets soon).made
  Step-Moves {s} (revokes_credential now user reason grant_id) k =
      (revoke_credential_grant-Writes o gap now user reason grant_id s).made
  Step-Moves {s} (elsewhere approvals tasks external_agents) k =
      next
        (other
          {t = record s { approvals = approvals; tasks = tasks; external_agents = external_agents }}
          refl refl refl (omega arith))
        none_made

  -- Any sequence of calls keeps every lease within its budgets, the flight recorder valid, and every
  -- credential under a lease that is not revoked unless the credential is and that the credential
  -- outlives by no more than `gap`, the most time that passes between the two readings of the clock when
  -- a credential is issued. (DistinctIds says that ids that are drawn differ.)
  pub Steps-Sound : {s t : TrustStore} → DistinctIds o → Steps s t → Sound o gap s → Sound o gap t
  Steps-Sound distinct here k = k
  Steps-Sound distinct (step call rest) k =
      Steps-Sound distinct rest (Moves-Sound o gap distinct (Step-Moves call k) k)

  -- The lease with this id is in the store and is not ACTIVE.
  pub record Stopped (id : String) (s : TrustStore) : Type 0 where
    pub lease : CapabilityLease
    pub found : get id s.leases ≡ some lease
    pub idle : (lease.status == CapabilityLeaseStatus.active) ≡ false

  Stopped-put :
      (id : String) (after : CapabilityLease) (s t : TrustStore)
      → t.leases ≡ put after s.leases
      → ((after.id == id) ≡ false)
      → Stopped id s
      → Stopped id t
  Stopped-put id after s t e others k = record {
    lease = k.lease;
    found =
        ap (get id) e
        ∙ get-put after id s.leases
        ∙ ap (λ b. if b then some after else get id s.leases) others
        ∙ k.found;
    idle = k.idle;
  }

  Move-Stopped :
      {s t : TrustStore} (id : String)
      → DistinctIds o
      → Move o gap s t
      → Sound o gap s
      → Stopped id s
      → Stopped id t
  unfolding record_event
  Move-Stopped id distinct (tell now call) k h = record {
    lease = h.lease;
    found = h.found;
    idle = h.idle;
  }
  Move-Stopped id distinct (other {s} {t} ls gs es le) k h = record {
    lease = h.lease;
    found = ap (get id) ls ∙ h.found;
    idle = h.idle;
  }
  Move-Stopped id distinct (grant lease g there active its outlived) k h = record {
    lease = h.lease;
    found = h.found;
    idle = h.idle;
  }
  Move-Stopped id distinct (drop_grant g now user reason there) k h = record {
    lease = h.lease;
    found = h.found;
    idle = h.idle;
  }
  Move-Stopped id distinct (renew {s} before after there active same expires still within) k h =
      elim (Bool-cases (after.id == id)) [
        | inl its ↦
            let own : before ≡ h.lease = some-injective before h.lease (
              sym there
              ∙ ap (λ i. get i s.leases) (sym same ∙ (eq_iff after.id id).0 its)
              ∙ h.found) in
            let busy : h.lease.status ≡ CapabilityLeaseStatus.active =
              sym (ap (λ (l : CapabilityLease). l.status) own) ∙ active in
            ground (arith, busy, h.idle, eq_iff h.lease.status CapabilityLeaseStatus.active)
        | inr others ↦ Stopped-put id after s _ refl others h
      ]
  Move-Stopped id distinct (revoke {s} lease now user reason there) k h =
      elim (Bool-cases (lease.id == id)) [
        | inl its ↦ record {
          lease = revoke_lease now user reason lease;
          found =
              get-put_self (revoke_lease now user reason lease) id s.leases
                ((eq_iff lease.id id).0 its);
          idle = refl;
        }
        | inr others ↦ Stopped-put id (revoke_lease now user reason lease) s _ refl others h
      ]
  Move-Stopped id distinct (issue {s} lease drawn within) k h = elim (Bool-cases (lease.id == id)) [
    | inl its ↦ absurd (
        none-ne-some h.lease (
          sym (fresh o distinct "lease" s.drawn s.leases k.lease_ids)
          ∙ ap (λ i. get i s.leases) (sym drawn ∙ (eq_iff lease.id id).0 its)
          ∙ h.found))
    | inr others ↦ Stopped-put id lease s _ refl others h
  ]

  Moves-Stopped :
      {s t : TrustStore} (id : String)
      → DistinctIds o
      → Moves o gap s t
      → Sound o gap s
      → Stopped id s
      → Stopped id t
  Moves-Stopped id distinct none_made k h = h
  Moves-Stopped id distinct (next w rest) k h =
      Moves-Stopped id distinct rest (Move-Sound o gap distinct w k)
        (Move-Stopped id distinct w k h)

  -- A lease that is not ACTIVE never becomes ACTIVE again, whatever is called.
  pub Steps-Stopped :
      {s t : TrustStore} (id : String)
      → DistinctIds o
      → Steps s t
      → Sound o gap s
      → Stopped id s
      → Stopped id t
  Steps-Stopped id distinct here k h = h
  Steps-Stopped id distinct (step call rest) k h =
      let moves = Step-Moves call k in
      Steps-Stopped id distinct rest (Moves-Sound o gap distinct moves k)
        (Moves-Stopped id distinct moves k h)
