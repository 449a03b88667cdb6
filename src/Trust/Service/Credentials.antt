-- ===== src/Trust/Service/Credentials.antt =====
-- Credential grants (trust_service.py: issue_credential_grant; trust_credentials.py).
use aixion_control_tower.Prelude.{
  ℕ, ◌+◌, ◌-◌, ◌*◌, ◌/◌, Bool, true, false, ◌&&◌, not, Option, none, some, List, [], ◌∷◌, String,
  ◌==◌, ◌!=◌, contains, string_eq, ltb, leb, if◌then◌else◌,
}
use aixion_control_tower.Prelude.Lists.{all}
use aixion_control_tower.Prelude.Exec.{Exec, Error, ok, err, conflict, not_found, unsupported}
use aixion_control_tower.Prelude.Dict.{get, put}
use aixion_control_tower.AgentRun.Models.{Instant, second}
use aixion_control_tower.Trust.Models.{TrustEventType, CapabilityLeaseStatus, lease_status_eq}
use aixion_control_tower.Trust.Leases.{CapabilityLease, lease_keyed}
use aixion_control_tower.Trust.Records.{
  AuthUser, CredentialGrant, CredentialGrantType, CredentialGrantCreate, CredentialGrantResponse,
  grant_type_eq, grant_keyed,
}
use aixion_control_tower.Trust.Payload.{
  PayloadValue.text, PayloadValue.texts, PayloadValue.number, PayloadValue.grant_value,
}
use aixion_control_tower.Trust.State.{
  Outside, TrustStore, Guard, first_raised, trust_event, record_event,
}
use aixion_control_tower.Trust.Service.Lifecycle.{refresh_lease_status}

-- The conditions of `issue_credential_grant` on the refreshed lease; `remaining_seconds` is the
-- whole number of seconds that the lease has left, which is not negative since the lease is active.
abbrev pub grant_guards : Instant → CredentialGrantCreate → CapabilityLease → List Guard
grant_guards now payload lease =
    let remaining_seconds = (lease.expires_at - now) / second in
    (lease.status != CapabilityLeaseStatus.active, conflict)
    ∷ (payload.grant_type != CredentialGrantType.internal_capability_token, unsupported)
    ∷ (ltb remaining_seconds payload.expires_in_seconds, conflict)
    ∷ []

abbrev pub new_grant :
    Outside → Instant → ℕ → CredentialGrantCreate → CapabilityLease → AuthUser → CredentialGrant
new_grant o now n payload lease user = record {
  id = o.new_id "credential_grant" n;
  lease_id = lease.id;
  grant_type = payload.grant_type;
  audience = payload.audience;
  subject = payload.subject;
  scope = payload.scope;
  issued_at = now;
  expires_at = now + payload.expires_in_seconds * second;
  revoked = false;
  revoked_at = none;
  token_hash = o.token_hash (o.new_token n);
  issued_by_user_id = user.id;
  revoked_by_user_id = none;
  revocation_reason = none;
}

abbrev pub write_grant : Outside → Instant → AuthUser → CredentialGrant → TrustStore → TrustStore
write_grant o now user grant store =
    record_event o now
      (trust_event TrustEventType.credential_grant_issued "credential_grant" grant.id user.email
        none
        (("lease_id", text grant.lease_id)
          ∷ ("grant_type", grant_value grant.grant_type)
          ∷ ("audience", text grant.audience)
          ∷ ("subject", text grant.subject)
          ∷ ("scope", texts grant.scope)
          ∷ ("expires_at", number grant.expires_at)
          ∷ []))
      (record store { grants = put grant store.grants; drawn = store.drawn + 1 })

abbrev pub grant_unless :
    Option Error
    → Outside
    → Instant
    → CredentialGrantCreate
    → CapabilityLease
    → AuthUser
    → Exec TrustStore CredentialGrantResponse
grant_unless (some error) o later payload lease user store = (err error, store)
grant_unless none o later payload lease user store =
    let grant = new_grant o later store.drawn payload lease user in
    (
      ok (record { grant = grant; bearer_token = o.new_token store.drawn }),
      write_grant o later user grant store,
    )

abbrev pub grant_under :
    Option CapabilityLease
    → Outside
    → Instant
    → Instant
    → CredentialGrantCreate
    → AuthUser
    → Exec TrustStore CredentialGrantResponse
grant_under none o now later payload user store = (err not_found, store)
grant_under (some lease) o now later payload user store =
    let (refreshed, store') = refresh_lease_status o now lease store in
    grant_unless (first_raised (grant_guards now payload refreshed)) o later payload refreshed user
      store'

-- `issue_credential_grant`. It reads the clock for the checks, and again `later` for what it writes.
unfoldable pub issue_credential_grant :
    Outside
    → Instant
    → Instant
    → CredentialGrantCreate
    → AuthUser
    → Exec TrustStore CredentialGrantResponse
unfolding refresh_lease_status record_event
issue_credential_grant o now later payload user store =
    grant_under (get payload.lease_id store.leases) o now later payload user store

pub record CredentialIntrospectionRequest : Type 0 where
  pub bearer_token : String
  pub audience : String
  pub required_scope : List String

-- Why a credential is not active, in place of the reason's wording.
pub data Inactive : Type 0 where
  grant_revoked grant_expired lease_not_active audience_mismatch scope_missing token_invalid :
      Inactive

-- `CredentialIntrospectionResult`; an active one carries the grant's fields.
pub data CredentialIntrospectionResult : Type 0 where
  active : CredentialGrant → CredentialIntrospectionResult
  inactive : Inactive → CredentialIntrospectionResult

-- `lease is None or lease.status.value != "ACTIVE" or lease.expires_at <= now`, negated
abbrev pub is_live : Instant → Option CapabilityLease → Bool
is_live now none = false
is_live now (some lease) =
    (lease.status == CapabilityLeaseStatus.active) && not (leb lease.expires_at now)

-- The answer on the grant whose token was presented.
unfoldable pub introspect_grant :
    Instant
    → CredentialIntrospectionRequest
    → CredentialGrant
    → List CapabilityLease
    → CredentialIntrospectionResult
introspect_grant now payload grant leases =
    if grant.revoked
    then inactive Inactive.grant_revoked
    else if leb grant.expires_at now
    then inactive Inactive.grant_expired
    else if not (is_live now (get grant.lease_id leases))
    then inactive Inactive.lease_not_active
    else if grant.audience != payload.audience
    then inactive Inactive.audience_mismatch
    else if not (all (λ item. contains item grant.scope) payload.required_scope)
    then inactive Inactive.scope_missing
    else active grant

-- The loop of `introspect_credential`.
abbrev pub introspect_from :
    Outside
    → Instant
    → CredentialIntrospectionRequest
    → List CapabilityLease
    → List CredentialGrant
    → CredentialIntrospectionResult
introspect_from o now payload leases [] = inactive Inactive.token_invalid
introspect_from o now payload leases (grant ∷ rest) =
    let later = introspect_from o now payload leases rest in
    if o.token_hash payload.bearer_token != grant.token_hash
    then later
    else introspect_grant now payload grant leases

-- `introspect_credential`
unfoldable pub introspect_credential :
    Outside → Instant → CredentialIntrospectionRequest → TrustStore → CredentialIntrospectionResult
unfolding introspect_grant
introspect_credential o now payload store = introspect_from o now payload store.leases store.grants

abbrev pub revoke_grant : Instant → AuthUser → String → CredentialGrant → CredentialGrant
revoke_grant now user reason grant = record grant {
  revoked = true;
  revoked_at = some now;
  revoked_by_user_id = some user.id;
  revocation_reason = some reason;
}

abbrev pub revoke_found :
    Option CredentialGrant → Outside → Instant → AuthUser → String → Exec TrustStore CredentialGrant
revoke_found none o now user reason store = (err not_found, store)
revoke_found (some canonical) o now user reason store =
    if canonical.revoked then (ok canonical, store) else (
      ok (revoke_grant now user reason canonical),
      record_event o now
          (trust_event TrustEventType.credential_grant_revoked "credential_grant" canonical.id
            user.email none (("lease_id", text canonical.lease_id) ∷ ("reason", text reason) ∷ []))
          (record store { grants = put (revoke_grant now user reason canonical) store.grants }),
    )

-- `revoke_credential_grant` of the grant with this id
unfoldable pub revoke_credential_grant :
    Outside → Instant → AuthUser → String → String → Exec TrustStore CredentialGrant
unfolding record_event
revoke_credential_grant o now user reason grant_id store =
    revoke_found (get grant_id store.grants) o now user reason store
