-- ===== src/Trust/Service/UseWrites.antt =====
-- What consumptions and credential grants write (trust_consumption.py, trust_service.py and
-- trust_credentials.py).
use aixion_control_tower.Prelude.{
  ℕ, ◌+◌, ◌-◌, ◌*◌, ◌/◌, ◌≤◌, ◌≡◌, refl, ap, ◌∙◌, false, not, ◌&&◌, Option, none, some, String,
  arith, ◌==◌, ◌!=◌, option_eq, string_eq, or_empty, eq_iff, leb, either_branch,
}
use aixion_control_tower.Prelude.Lists.{All}
use aixion_control_tower.Prelude.Exec.{Error}
use aixion_control_tower.Prelude.Dict.{get, key-get, All-get}
use aixion_control_tower.AgentRun.Models.{Instant, second}
use aixion_control_tower.Approvals.Models.{approval_keyed}
use aixion_control_tower.Trust.Models.{
  CapabilityLeaseStatus, PolicyDecisionType, lease_status_eq, decision_type_eq,
}
use aixion_control_tower.Trust.Leases.{
  CapabilityLease, ProposedAction, ActionConsumption, lease_keyed, action_keyed,
}
use aixion_control_tower.Trust.Records.{
  AuthUser, CredentialGrantCreate, CredentialGrant, RecordedDecision, RecordedConsumption,
  decision_keyed, attestation_decision_eq, grant_keyed, consumption_keyed,
}
use aixion_control_tower.Trust.State.{Outside, TrustStore, first_raised}
use aixion_control_tower.Trust.Service.Lifecycle.{refresh_lease_status}
use aixion_control_tower.Trust.Service.Consume.{
  project_use, budget_guards, consume_unless, consume_under, consume_once, consume_decided,
  consume_found, consume_effective_action, is_human, verify_human_allow, same_consumption,
  latest_policy_decision,
}
use aixion_control_tower.Trust.Service.Credentials.{
  grant_guards, grant_unless, grant_under, issue_credential_grant, revoke_found,
  revoke_credential_grant,
}
use aixion_control_tower.Trust.Service.Moves.{
  WithinBudget, Move.tell, Move.renew, Move.grant, Move.drop_grant, Move.other, Moves.none_made,
  Moves.next, join-Moves,
}
use aixion_control_tower.Trust.Service.Writes.{
  Writes, unwritten, refresh_lease_status-Refreshed, own_id, first_raised-none,
}

enough : (n now expiry : ℕ) → n ≤ (expiry - now) / second → now ≤ expiry → now + n * second ≤ expiry
enough n now expiry h live = omega (arith, h, live)

module _ (o : Outside) (gap : ℕ) where
  consume_unless-Writes :
      (refusal : Option Error) (now : Instant) (action : ProposedAction)
      (decision : RecordedDecision) (consumption : ActionConsumption) (actor : String)
      (lease : CapabilityLease) (s : TrustStore)
      → first_raised (budget_guards lease (project_use now consumption lease)) ≡ refusal
      → get lease.id s.leases ≡ some lease
      → Writes o gap s (consume_unless refusal o now action decision consumption actor lease s)
  consume_unless-Writes (some error) now action decision consumption actor lease s why there =
      (unwritten o gap)
  consume_unless-Writes none now action decision consumption actor lease s why there =
      let guards = budget_guards lease (project_use now consumption lease) in
      let (active, (runtime, (cost, (prs, (retries, _))))) = first_raised-none guards why in
      let is_active : lease.status ≡ CapabilityLeaseStatus.active =
        ground (arith, active, eq_iff lease.status CapabilityLeaseStatus.active) in
      let within : WithinBudget (project_use now consumption lease) = record {
        runtime = ground (arith, runtime);
        cost = ground (arith, cost);
        pull_requests = ground (arith, prs);
        retries = ground (arith, retries);
      } in
      let still : (lease.status == CapabilityLeaseStatus.revoked) ≡ false =
        ground (arith, is_active, eq_iff lease.status CapabilityLeaseStatus.revoked) in
      record {
        made =
            next
              (renew lease (project_use now consumption lease) there is_active refl refl still
                within)
              (next (other refl refl refl (omega arith)) (next (tell now _) none_made));
      }

  consume_under-Writes :
      (found : Option CapabilityLease) (id : String) (now : Instant) (action : ProposedAction)
      (decision : RecordedDecision) (consumption : ActionConsumption) (actor : String)
      (s : TrustStore)
      → get id s.leases ≡ found
      → All WithinBudget s.leases
      → Writes o gap s (consume_under found o now action decision consumption actor s)
  consume_under-Writes none id now action decision consumption actor s there within =
      (unwritten o gap)
  consume_under-Writes (some lease) id now action decision consumption actor s there within =
      let (after, t) = refresh_lease_status o now lease s in
      let r =
        refresh_lease_status-Refreshed o gap now lease s
          (ap (λ i. get i s.leases) (key-get id s.leases lease there) ∙ there)
          (All-get WithinBudget id s.leases lease within there) in
      let w =
        consume_unless-Writes _ now action decision consumption actor after t refl
          (own_id o gap now lease after s t r) in
      record { made = join-Moves o gap r.made w.made }

  consume_once-Writes :
      (found : Option RecordedConsumption) (now : Instant) (action : ProposedAction)
      (decision : RecordedDecision) (consumption : ActionConsumption) (actor : String)
      (s : TrustStore)
      → All WithinBudget s.leases
      → Writes o gap s (consume_once found o now action decision consumption actor s)
  consume_once-Writes (some existing) now action decision consumption actor s within =
      either_branch (Writes o gap s) (not (same_consumption existing.consumption consumption)) _ _
        (unwritten o gap) (unwritten o gap)
  consume_once-Writes none now action decision consumption actor s within =
      consume_under-Writes _ (or_empty action.lease_id) now action decision consumption actor s refl
        within

  consume_decided-Writes :
      (found : Option RecordedDecision) (now : Instant) (action : ProposedAction)
      (consumption : ActionConsumption) (actor : String) (s : TrustStore)
      → All WithinBudget s.leases
      → Writes o gap s (consume_decided found o now action consumption actor s)
  consume_decided-Writes none now action consumption actor s within = (unwritten o gap)
  consume_decided-Writes (some decision) now action consumption actor s within =
      either_branch (Writes o gap s) (decision.verdict.decision != PolicyDecisionType.allow) _ _
        (unwritten o gap)
        (either_branch (Writes o gap s)
          (is_human decision && not (verify_human_allow o action s.authorizations)) _ _
          (unwritten o gap) (consume_once-Writes _ now action decision consumption actor s within))

  consume_found-Writes :
      (found : Option ProposedAction) (now : Instant) (consumption : ActionConsumption)
      (actor : String) (s : TrustStore)
      → All WithinBudget s.leases
      → Writes o gap s (consume_found found o now consumption actor s)
  consume_found-Writes none now consumption actor s within = (unwritten o gap)
  consume_found-Writes (some action) now consumption actor s within =
      consume_decided-Writes (latest_policy_decision action.id s.decisions) now action consumption
        actor s within

  pub consume_effective_action-Writes :
      (now : Instant) (action_id : String) (consumption : ActionConsumption) (actor : String)
      (s : TrustStore)
      → All WithinBudget s.leases
      → Writes o gap s (consume_effective_action o now action_id consumption actor s)
  unfolding consume_effective_action
  consume_effective_action-Writes now action_id consumption actor s within =
      consume_found-Writes (get action_id s.actions) now consumption actor s within

  grant_unless-Writes :
      (refusal : Option Error) (now later : Instant) (payload : CredentialGrantCreate)
      (lease : CapabilityLease) (user : AuthUser) (s : TrustStore)
      → first_raised (grant_guards now payload lease) ≡ refusal
      → get lease.id s.leases ≡ some lease
      → ((lease.status == CapabilityLeaseStatus.active) && leb lease.expires_at now) ≡ false
      → later ≤ now + gap
      → Writes o gap s (grant_unless refusal o later payload lease user s)
  grant_unless-Writes (some error) now later payload lease user s why there live soon =
      (unwritten o gap)
  grant_unless-Writes none now later payload lease user s why there live soon =
      let (active, (kind, (room, _))) = first_raised-none (grant_guards now payload lease) why in
      let is_active : lease.status ≡ CapabilityLeaseStatus.active =
        ground (arith, active, eq_iff lease.status CapabilityLeaseStatus.active) in
      let outlived : now + payload.expires_in_seconds * second ≤ lease.expires_at =
        enough payload.expires_in_seconds now lease.expires_at (ground (arith, room))
          (ground (arith, live, is_active)) in
      record {
        made =
            next (grant lease _ there is_active refl (omega (arith, outlived, soon)))
              (next (tell later _) none_made);
      }

  grant_under-Writes :
      (found : Option CapabilityLease) (id : String) (now later : Instant)
      (payload : CredentialGrantCreate) (user : AuthUser) (s : TrustStore)
      → get id s.leases ≡ found
      → All WithinBudget s.leases
      → later ≤ now + gap
      → Writes o gap s (grant_under found o now later payload user s)
  grant_under-Writes none id now later payload user s there within soon = (unwritten o gap)
  grant_under-Writes (some lease) id now later payload user s there within soon =
      let (after, t) = refresh_lease_status o now lease s in
      let r =
        refresh_lease_status-Refreshed o gap now lease s
          (ap (λ i. get i s.leases) (key-get id s.leases lease there) ∙ there)
          (All-get WithinBudget id s.leases lease within there) in
      let w =
        grant_unless-Writes _ now later payload after user t refl
          (own_id o gap now lease after s t r) r.live soon in
      record { made = join-Moves o gap r.made w.made }

  pub issue_credential_grant-Writes :
      (now later : Instant) (payload : CredentialGrantCreate) (user : AuthUser) (s : TrustStore)
      → All WithinBudget s.leases
      → later ≤ now + gap
      → Writes o gap s (issue_credential_grant o now later payload user s)
  unfolding issue_credential_grant
  issue_credential_grant-Writes now later payload user s within soon =
      grant_under-Writes _ payload.lease_id now later payload user s refl within soon

  revoke_found-Writes :
      (found : Option CredentialGrant) (id : String) (now : Instant) (user : AuthUser)
      (reason : String) (s : TrustStore)
      → get id s.grants ≡ found
      → Writes o gap s (revoke_found found o now user reason s)
  revoke_found-Writes none id now user reason s there = (unwritten o gap)
  revoke_found-Writes (some g) id now user reason s there =
      let own = ap (λ i. get i s.grants) (key-get id s.grants g there) ∙ there in
      either_branch (Writes o gap s) g.revoked _ _ (unwritten o gap)
        (record { made = next (drop_grant g now user reason own) (next (tell now _) none_made) })

  pub revoke_credential_grant-Writes :
      (now : Instant) (user : AuthUser) (reason : String) (grant_id : String) (s : TrustStore)
      → Writes o gap s (revoke_credential_grant o now user reason grant_id s)
  unfolding revoke_credential_grant
  revoke_credential_grant-Writes now user reason grant_id s =
      revoke_found-Writes _ grant_id now user reason s refl
