-- ===== src/Trust/Service/Moves.antt =====
-- The writes that the operations of trust_service.py, trust_consumption.py and trust_credentials.py
-- make to leases, grants and events, as a relation between stores.
use aixion_control_tower.Prelude.{ℕ, ◌+◌, ◌≤◌, ◌≡◌, false, some, String, map, ◌==◌}
use aixion_control_tower.Prelude.Dict.{get, put}
use aixion_control_tower.AgentRun.Models.{Instant}
use aixion_control_tower.Trust.Models.{CapabilityLeaseStatus, lease_status_eq}
use aixion_control_tower.Trust.Leases.{CapabilityLease, lease_keyed}
use aixion_control_tower.Trust.Records.{AuthUser, CredentialGrant, grant_keyed}
use aixion_control_tower.Trust.FlightRecorder.Chain.{TrustEventCall}
use aixion_control_tower.Trust.State.{Outside, TrustStore, record_event}
use aixion_control_tower.Trust.Service.Lifecycle.{revoke_lease, revoke_grant_of}
use aixion_control_tower.Trust.Service.Credentials.{revoke_grant}

-- What a lease has used is within its scope.
pub record WithinBudget (lease : CapabilityLease) : Type 0 where
  pub runtime : lease.consumed_runtime_seconds ≤ lease.scope.max_runtime_seconds
  pub cost : lease.consumed_cost_usd ≤ lease.scope.max_cost_usd
  pub pull_requests : lease.consumed_pull_requests ≤ lease.scope.max_pull_requests
  pub retries : lease.consumed_retries ≤ lease.scope.max_retries

module _ (o : Outside) (gap : ℕ) where
  -- One write; `gap` is the time that may pass between the clock readings of `issue_credential_grant`.
  pub data Move : TrustStore → TrustStore → Type 0 where
    tell :
        {s : TrustStore} (now : Instant) (call : TrustEventCall)
        → Move s (record_event o now call s)
    renew :
        {s : TrustStore} (before after : CapabilityLease)
        → get before.id s.leases ≡ some before
        → before.status ≡ CapabilityLeaseStatus.active
        → after.id ≡ before.id
        → after.expires_at ≡ before.expires_at
        → (after.status == CapabilityLeaseStatus.revoked) ≡ false
        → WithinBudget after
        → Move s (record s { leases = put after s.leases })
    revoke :
        {s : TrustStore} (lease : CapabilityLease) (now : Instant) (user : AuthUser)
        (reason : String)
        → get lease.id s.leases ≡ some lease
        → Move s (record s {
          leases = put (revoke_lease now user reason lease) s.leases;
          grants = map (revoke_grant_of now lease.id) s.grants;
        })
    issue :
        {s : TrustStore} (lease : CapabilityLease)
        → lease.id ≡ o.new_id "lease" s.drawn
        → WithinBudget lease
        → Move s (record s { leases = put lease s.leases; drawn = s.drawn + 1 })
    grant :
        {s : TrustStore} (lease : CapabilityLease) (g : CredentialGrant)
        → get lease.id s.leases ≡ some lease
        → lease.status ≡ CapabilityLeaseStatus.active
        → g.lease_id ≡ lease.id
        → g.expires_at ≤ lease.expires_at + gap
        → Move s (record s { grants = put g s.grants; drawn = s.drawn + 1 })
    drop_grant :
        {s : TrustStore} (g : CredentialGrant) (now : Instant) (user : AuthUser) (reason : String)
        → get g.id s.grants ≡ some g
        → Move s (record s { grants = put (revoke_grant now user reason g) s.grants })
    other :
        {s t : TrustStore}
        → t.leases ≡ s.leases
        → t.grants ≡ s.grants
        → t.events ≡ s.events
        → s.drawn ≤ t.drawn
        → Move s t

  -- Any number of writes, one after the other.
  pub data Moves : TrustStore → TrustStore → Type 0 where
    none_made : {s : TrustStore} → Moves s s
    next : {s t u : TrustStore} → Move s t → Moves t u → Moves s u

  pub join-Moves : {s t u : TrustStore} → Moves s t → Moves t u → Moves s u
  join-Moves none_made m = m
  join-Moves (next w rest) m = next w (join-Moves rest m)
