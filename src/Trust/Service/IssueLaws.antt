-- ===== src/Trust/Service/IssueLaws.antt =====
-- What an issued lease rests on (trust_service.py: issue_capability_lease).
use aixion_control_tower.Prelude.{
  ◌+◌, ◌*◌, ◌<◌, ◌≡◌, ◌⊎◌, refl, sym, ap, ◌∙◌, Option, none, some, arith, inl, inr, or_empty,
  eq_iff, string_eq, option_eq,
}
use aixion_control_tower.Prelude.Lists.{find_first}
use mathlib.Core.Path.{subst}
use aixion_control_tower.Prelude.Exec.{Error, ok}
use aixion_control_tower.Prelude.Lists.{find_first-holds}
use aixion_control_tower.Prelude.Dict.{get, put, get-put_self}
use aixion_control_tower.AgentRun.Models.{Instant, second}
use aixion_control_tower.Approvals.Models.{ApprovalRequest, approval_status_eq, approval_keyed}
use aixion_control_tower.Trust.Models.{CapabilityLeaseStatus, lease_status_eq}
use aixion_control_tower.Trust.Leases.{CapabilityLease, lease_keyed}
use aixion_control_tower.Trust.Policy.Evaluate.{lease_receipt_payload}
use aixion_control_tower.Trust.Records.{AuthUser, CapabilityLeaseCreate}
use aixion_control_tower.Trust.State.{Outside, TrustStore, record_event}
use aixion_control_tower.Trust.Service.Issue.{
  issue_refusal, is_active_for, new_lease, issue_unless_active, issue_unless_refused, issue_for,
  issue_capability_lease,
}
use aixion_control_tower.Trust.Service.Sanction.{Sanctioned, issue_refusal-Sanctioned}

-- A lease as it is issued: signed, ACTIVE, unused, for the approval, with the agent, the mode, the
-- scope and the life that were asked for, and stored.
pub record Signed (o : Outside) (now : Instant) (payload : CapabilityLeaseCreate)
    (approval : ApprovalRequest) (lease : CapabilityLease) (t : TrustStore) : Type 0 where
  pub receipt : o.sign_receipt (lease_receipt_payload lease) ≡ lease.receipt_signature
  pub seal : approval.approved_payload_hash ≡ some lease.approved_payload_hash
  pub of_approval : lease.approval_request_id ≡ approval.id
  pub agent : lease.agent_id ≡ payload.agent_id
  pub provider : lease.provider ≡ payload.provider
  pub mode : lease.mode ≡ payload.mode
  pub scope :
      lease.scope ≡ record payload.scope { request_fingerprint = some (o.request_hash payload) }
  pub reviewers : lease.required_reviewer_count ≡ payload.required_reviewer_count
  pub by_others : lease.prevent_self_approval ≡ payload.prevent_self_approval
  pub active : lease.status ≡ CapabilityLeaseStatus.active
  pub expires : lease.expires_at ≡ now + payload.expires_in_seconds * second
  pub no_pull_requests : lease.consumed_pull_requests ≡ 0
  pub no_retries : lease.consumed_retries ≡ 0
  pub no_runtime : lease.consumed_runtime_seconds ≡ 0
  pub no_cost : lease.consumed_cost_usd ≡ 0
  pub stored : get lease.id t.leases ≡ some lease

-- A lease that is answered again: the same request for the same approval and agent was granted before
-- and its lease is still ACTIVE.
pub record Repeated (o : Outside) (now : Instant) (payload : CapabilityLeaseCreate)
    (approval : ApprovalRequest) (lease : CapabilityLease) (s t : TrustStore) : Type 0 where
  pub same_request : lease.scope.request_fingerprint ≡ some (o.request_hash payload)
  pub of_approval : lease.approval_request_id ≡ approval.id
  pub agent : lease.agent_id ≡ payload.agent_id
  pub active : lease.status ≡ CapabilityLeaseStatus.active
  pub unexpired : now < lease.expires_at
  pub unchanged : t ≡ s

module _ (o : Outside) where
  unless_active :
      (found : Option CapabilityLease) (now : Instant) (payload : CapabilityLeaseCreate)
      (approval : ApprovalRequest) (user : AuthUser) (s t : TrustStore) (lease : CapabilityLease)
      → find_first (is_active_for now approval.id payload.agent_id) s.leases ≡ found
      → approval.approved_payload_hash ≡ some (or_empty approval.approved_payload_hash)
      → issue_unless_active found o now payload approval user s ≡ (ok lease, t)
      → Signed o now payload approval lease t ⊎ Repeated o now payload approval lease s t
  unfolding record_event
  unless_active none now payload approval user s t lease why set h =
      let fresh = new_lease o now s.drawn payload approval user in
      let its : fresh ≡ lease = ground (arith, h) in
      let leases : put fresh s.leases ≡ t.leases = ap (λ r. r.1.leases) h in
      inl (
        subst (λ l. Signed o now payload approval l t) its
          (record {
            receipt = refl;
            seal = set;
            of_approval = refl;
            agent = refl;
            provider = refl;
            mode = refl;
            scope = refl;
            reviewers = refl;
            by_others = refl;
            active = refl;
            expires = refl;
            no_pull_requests = refl;
            no_retries = refl;
            no_runtime = refl;
            no_cost = refl;
            stored = ap (get fresh.id) (sym leases) ∙ get-put_self fresh fresh.id s.leases refl;
          }))
  unless_active (some found) now payload approval user s t lease why set h =
      let its : found ≡ lease = ground (arith, h) in
      let holds =
        find_first-holds (is_active_for now approval.id payload.agent_id) s.leases found why in
      inr (
        subst (λ l. Repeated o now payload approval l s t) its
          (record {
            same_request =
                ground (
                  arith,
                  h,
                  eq_iff found.scope.request_fingerprint (some (o.request_hash payload)),
                );
            of_approval = ground (arith, holds, eq_iff found.approval_request_id approval.id);
            agent = ground (arith, holds, eq_iff found.agent_id payload.agent_id);
            active = ground (arith, holds, eq_iff found.status CapabilityLeaseStatus.active);
            unexpired = ground (arith, holds);
            unchanged = ground (arith, h);
          }))

  unless_refused :
      (refusal : Option Error) (now : Instant) (payload : CapabilityLeaseCreate)
      (approval : ApprovalRequest) (user : AuthUser) (s t : TrustStore) (lease : CapabilityLease)
      → issue_refusal payload approval s ≡ refusal
      → issue_unless_refused refusal o now payload approval user s ≡ (ok lease, t)
      → Sanctioned payload approval s
        × (Signed o now payload approval lease t ⊎ Repeated o now payload approval lease s t)
  unless_refused (some e) now payload approval user s t lease why h = ground (arith, h)
  unless_refused none now payload approval user s t lease why h =
      let sanctioned = issue_refusal-Sanctioned payload approval s why in
      (
        sanctioned,
        unless_active _ now payload approval user s t lease refl
            (sanctioned.sealed ∙ ap some (sym (ap or_empty sanctioned.sealed))) h,
      )

  issued_for :
      (found : Option ApprovalRequest) (now : Instant) (payload : CapabilityLeaseCreate)
      (user : AuthUser) (s t : TrustStore) (lease : CapabilityLease)
      → get payload.approval_request_id s.approvals ≡ found
      → issue_for found o now payload user s ≡ (ok lease, t)
      → (approval : ApprovalRequest) × (get payload.approval_request_id s.approvals ≡ some approval)
        × Sanctioned payload approval s
        × (Signed o now payload approval lease t ⊎ Repeated o now payload approval lease s t)
  issued_for none now payload user s t lease there h = ground (arith, h)
  issued_for (some approval) now payload user s t lease there h =
      let (sanctioned, way) = unless_refused _ now payload approval user s t lease refl h in
      (approval, there, sanctioned, way)

  -- A lease that is issued rests on the approval that is asked for: it is sanctioned, and the lease
  -- is either signed anew, with the scope, agent, provider and mode of the sanctioned request, unused
  -- and stored, or answered again, unchanged, for the same request, approval and agent.
  pub issue_capability_lease-Sanctioned :
      (now : Instant) (payload : CapabilityLeaseCreate) (user : AuthUser) (s t : TrustStore)
      (lease : CapabilityLease)
      → issue_capability_lease o now payload user s ≡ (ok lease, t)
      → (approval : ApprovalRequest) × (get payload.approval_request_id s.approvals ≡ some approval)
        × Sanctioned payload approval s
        × (Signed o now payload approval lease t ⊎ Repeated o now payload approval lease s t)
  unfolding issue_capability_lease
  issue_capability_lease-Sanctioned now payload user s t lease h =
      issued_for (get payload.approval_request_id s.approvals) now payload user s t lease refl h
