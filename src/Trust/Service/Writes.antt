-- ===== src/Trust/Service/Writes.antt =====
-- What attestations, leases and the gateway write (trust_service.py).
use aixion_control_tower.Prelude.{
  ℕ, ◌+◌, ◌≤◌, ◌≡◌, refl, ap, ◌∙◌, false, not, ◌&&◌, Option, none, some, List, [], ◌∷◌, String,
  arith, inl, inr, ◌==◌, ◌!=◌, is_set, option_eq, string_eq, or_empty, eq_iff, leb, Bool-cases,
  either_branch,
}
use aixion_control_tower.Prelude.Lists.{find_first, All}
use aixion_control_tower.Prelude.Exec.{Error, Result}
use aixion_control_tower.Prelude.Dict.{get, put, get-put_self, key-get, All-get}
use aixion_control_tower.AgentRun.Models.{Instant}
use aixion_control_tower.Approvals.Models.{ApprovalRequest, approval_keyed}
use aixion_control_tower.Trust.Models.{CapabilityLeaseStatus, lease_status_eq, decision_type_eq}
use aixion_control_tower.Trust.Leases.{CapabilityLease, ProposedAction, lease_keyed, action_keyed}
use aixion_control_tower.Trust.Records.{
  AuthUser, ReviewerAttestationCreate, ReviewerAttestation, AttestationMaterial,
  CapabilityLeaseCreate, RecordedDecision, decision_keyed, attestation_decision_eq, grant_keyed,
  consumption_keyed,
}
use aixion_control_tower.Trust.State.{Outside, TrustStore, Guard, first_raised, record_event}
use aixion_control_tower.Trust.Service.Reviews.{
  attest, attest_on, is_by, attestation_material, record_reviewer_attestation,
}
use aixion_control_tower.Trust.Service.Issue.{
  new_lease, issue_unless_active, issue_unless_refused, issue_for, issue_capability_lease,
}
use aixion_control_tower.Trust.Service.Lifecycle.{
  expire_lease, refresh_lease_status, revoke_refreshed, revoke_capability_lease, refresh_named,
  receive_action, store_decision, evaluate_gateway_action,
}
use aixion_control_tower.Trust.Service.Moves.{
  WithinBudget, Move.tell, Move.renew, Move.revoke, Move.issue, Move.other, Moves, Moves.none_made,
  Moves.next, join-Moves,
}

-- Every condition of guards that raise nothing is false.
pub first_raised-none :
    (guards : List Guard) → first_raised guards ≡ none → All (λ g. g.0 ≡ false) guards
first_raised-none [] h = tt
first_raised-none ((c, e) ∷ rest) h = (ground arith, first_raised-none rest (ground arith))

module _ (o : Outside) (gap : ℕ) where
  -- The store after a call is reached by writes.
  pub record Writes {A : Type 0} (s : TrustStore) (outcome : Result A × TrustStore) : Type 0 where
    pub made : Moves o gap s outcome.1

  pub unwritten : {A : Type 0} {s : TrustStore} {r : Result A} → Writes s (r, s)
  unwritten = record { made = none_made }

  attest-Writes :
      (found : Option ReviewerAttestation) (now : Instant) (user : AuthUser)
      (material : AttestationMaterial) (s : TrustStore)
      → Writes s (attest o now user material found s)
  attest-Writes none now user material s = record {
    made = next (other refl refl refl (omega arith)) (next (tell now _) none_made);
  }
  attest-Writes (some existing) now user material s =
      either_branch (Writes s) (existing.material.decision != material.decision) _ _ unwritten (
        either_branch (Writes s) (existing.material.reason != material.reason) _ _ unwritten
          unwritten)

  attest_on-Writes :
      (found : Option ApprovalRequest) (now : Instant) (payload : ReviewerAttestationCreate)
      (user : AuthUser) (s : TrustStore)
      → Writes s (attest_on found o now payload user s)
  attest_on-Writes none now payload user s = unwritten
  attest_on-Writes (some approval) now payload user s =
      either_branch (Writes s) (not (is_set approval.approved_payload_hash)) _ _ unwritten (
        either_branch (Writes s) (approval.created_by_user_id == some user.id) _ _ unwritten (
          attest-Writes
            (find_first (is_by approval.id user.id (or_empty approval.approved_payload_hash))
              s.attestations)
            now user (attestation_material approval payload user) s))

  pub record_reviewer_attestation-Writes :
      (now : Instant) (payload : ReviewerAttestationCreate) (user : AuthUser) (s : TrustStore)
      → Writes s (record_reviewer_attestation o now payload user s)
  unfolding record_reviewer_attestation
  record_reviewer_attestation-Writes now payload user s =
      attest_on-Writes (get payload.approval_request_id s.approvals) now payload user s

  issue_unless_active-Writes :
      (found : Option CapabilityLease) (now : Instant) (payload : CapabilityLeaseCreate)
      (approval : ApprovalRequest) (user : AuthUser) (s : TrustStore)
      → Writes s (issue_unless_active found o now payload approval user s)
  issue_unless_active-Writes none now payload approval user s =
      let within : WithinBudget (new_lease o now s.drawn payload approval user) = record {
        runtime = omega arith;
        cost = omega arith;
        pull_requests = omega arith;
        retries = omega arith;
      } in
      record { made = next (issue _ refl within) (next (tell now _) none_made) }
  issue_unless_active-Writes (some active) now payload approval user s =
      either_branch (Writes s) (active.scope.request_fingerprint == some (o.request_hash payload)) _
        _ unwritten unwritten

  issue_unless_refused-Writes :
      (refusal : Option Error) (now : Instant) (payload : CapabilityLeaseCreate)
      (approval : ApprovalRequest) (user : AuthUser) (s : TrustStore)
      → Writes s (issue_unless_refused refusal o now payload approval user s)
  issue_unless_refused-Writes none now payload approval user s =
      issue_unless_active-Writes _ now payload approval user s
  issue_unless_refused-Writes (some error) now payload approval user s = unwritten

  issue_for-Writes :
      (found : Option ApprovalRequest) (now : Instant) (payload : CapabilityLeaseCreate)
      (user : AuthUser) (s : TrustStore)
      → Writes s (issue_for found o now payload user s)
  issue_for-Writes none now payload user s = unwritten
  issue_for-Writes (some approval) now payload user s =
      issue_unless_refused-Writes _ now payload approval user s

  pub issue_capability_lease-Writes :
      (now : Instant) (payload : CapabilityLeaseCreate) (user : AuthUser) (s : TrustStore)
      → Writes s (issue_capability_lease o now payload user s)
  unfolding issue_capability_lease
  issue_capability_lease-Writes now payload user s =
      issue_for-Writes (get payload.approval_request_id s.approvals) now payload user s

  -- A lease and the store after it is refreshed.
  pub record Refreshed (now : Instant) (lease : CapabilityLease) (s : TrustStore)
      (after : CapabilityLease) (t : TrustStore) : Type 0 where
    pub made : Moves o gap s t
    pub found : get lease.id t.leases ≡ some after
    pub same_id : after.id ≡ lease.id
    pub expires : after.expires_at ≡ lease.expires_at
    pub drawn : s.drawn ≤ t.drawn
    pub live : ((after.status == CapabilityLeaseStatus.active) && leb after.expires_at now) ≡ false

  pub refresh_lease_status-Refreshed :
      (now : Instant) (lease : CapabilityLease) (s : TrustStore)
      → get lease.id s.leases ≡ some lease
      → WithinBudget lease
      → let (after, t) = refresh_lease_status o now lease s in Refreshed now lease s after t
  unfolding refresh_lease_status record_event
  refresh_lease_status-Refreshed now lease s there within =
      elim (Bool-cases
        ((lease.status == CapabilityLeaseStatus.active) && leb lease.expires_at now)) [
          | inl due ↦
              let active : lease.status ≡ CapabilityLeaseStatus.active =
                ground (arith, due, eq_iff lease.status CapabilityLeaseStatus.active) in
              rw due (record {
                made =
                    next
                      (renew lease (expire_lease now lease) there active refl refl refl (record {
                        runtime = within.runtime;
                        cost = within.cost;
                        pull_requests = within.pull_requests;
                        retries = within.retries;
                      }))
                      (next (tell now _) none_made);
                found = get-put_self (expire_lease now lease) lease.id s.leases refl;
                same_id = refl;
                expires = refl;
                drawn = omega arith;
                live = refl;
              })
          | inr not_due ↦ rw not_due (record {
            made = none_made;
            found = there;
            same_id = refl;
            expires = refl;
            drawn = omega arith;
            live = not_due;
          })
        ]

  revoke_refreshed-Writes :
      (now : Instant) (user : AuthUser) (reason : String) (lease : CapabilityLease) (s : TrustStore)
      → get lease.id s.leases ≡ some lease
      → Writes s (revoke_refreshed o now user reason lease s)
  revoke_refreshed-Writes now user reason lease s there =
      either_branch (Writes s) (lease.status == CapabilityLeaseStatus.revoked) _ _ unwritten (
        either_branch (Writes s) (lease.status == CapabilityLeaseStatus.expired) _ _ unwritten (
          either_branch (Writes s) (lease.status != CapabilityLeaseStatus.active) _ _ unwritten
            (record {
              made = next (revoke lease now user reason there) (next (tell now _) none_made);
            })))

  -- A refreshed lease is in the store under its own id.
  pub own_id :
      (now : Instant) (lease after : CapabilityLease) (s t : TrustStore)
      → Refreshed now lease s after t
      → get after.id t.leases ≡ some after
  own_id now lease after s t r = ap (λ i. get i t.leases) r.same_id ∙ r.found

  pub revoke_capability_lease-Writes :
      (now : Instant) (user : AuthUser) (reason : String) (lease : CapabilityLease) (s : TrustStore)
      → get lease.id s.leases ≡ some lease
      → WithinBudget lease
      → Writes s (revoke_capability_lease o now user reason lease s)
  unfolding revoke_capability_lease
  revoke_capability_lease-Writes now user reason lease s there within =
      let (after, t) = refresh_lease_status o now lease s in
      let r = refresh_lease_status-Refreshed now lease s there within in
      let w = revoke_refreshed-Writes now user reason after t (own_id now lease after s t r) in
      record { made = join-Moves o gap r.made w.made }

  refresh_named-Moves :
      (found : Option CapabilityLease) (id : String) (now : Instant) (s : TrustStore)
      → get id s.leases ≡ found
      → All WithinBudget s.leases
      → Moves o gap s (refresh_named o now found s).1
  refresh_named-Moves none id now s there within = none_made
  refresh_named-Moves (some lease) id now s there within =
      (refresh_lease_status-Refreshed now lease s
        (ap (λ i. get i s.leases) (key-get id s.leases lease there) ∙ there)
        (All-get WithinBudget id s.leases lease within there)).made

  receive_action-Moves :
      (now : Instant) (action : ProposedAction) (actor : String) (s : TrustStore)
      → Moves o gap s (receive_action o now action actor s)
  receive_action-Moves now action actor s =
      next (other {t = record s { actions = put action s.actions }} refl refl refl (omega arith))
        (next (tell now _) none_made)

  store_decision-Moves :
      (now : Instant) (action : ProposedAction) (actor : String) (decision : RecordedDecision)
      (s : TrustStore)
      → Moves o gap s (store_decision o now action actor decision s)
  store_decision-Moves now action actor decision s =
      next
        (other {t = record s { decisions = put decision s.decisions; drawn = s.drawn + 1 }} refl
          refl refl (omega arith))
        (next (tell now _) none_made)

  pub evaluate_gateway_action-Moves :
      (now : Instant) (action : ProposedAction) (actor : String) (s : TrustStore)
      → All WithinBudget s.leases
      → Moves o gap s (evaluate_gateway_action o now action actor s).1
  unfolding evaluate_gateway_action
  evaluate_gateway_action-Moves now action actor s within =
      let found = get (or_empty action.lease_id) s.leases in
      let (lease, t) = refresh_named o now found s in
      let received = receive_action o now action actor t in
      join-Moves o gap
        (refresh_named-Moves (get (or_empty action.lease_id) s.leases) (or_empty action.lease_id)
          now s refl within)
        (join-Moves o gap (receive_action-Moves now action actor t)
          (store_decision-Moves now action actor _ received))
