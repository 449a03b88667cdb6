-- ===== src/Trust/Service/Introspect.antt =====
-- What credentials are worth (trust_credentials.py: introspect_credential).
use aixion_control_tower.Prelude.{
  ℕ, ◌<◌, ◌≡◌, ◌≢◌, ◌↔◌, refl, sym, ap, ◌∙◌, Bool, true, false, Option, none, some, List, [], ◌∷◌,
  String, arith, inl, inr, ◌!=◌, ◌==◌, contains, eq_iff, string_eq, Bool-cases,
}
use aixion_control_tower.Prelude.Lists.{all, find_first}
use mathlib.Core.Option.{some-injective, none-ne-some}
use mathlib.Core.Path.{subst}
use aixion_control_tower.Prelude.Dict.{get}
use aixion_control_tower.AgentRun.Models.{Instant}
use aixion_control_tower.Trust.Models.{CapabilityLeaseStatus, lease_status_eq}
use aixion_control_tower.Trust.Leases.{CapabilityLease, lease_keyed}
use aixion_control_tower.Trust.Records.{CredentialGrant}
use aixion_control_tower.Trust.State.{Outside, TrustStore}
use aixion_control_tower.Trust.Service.Credentials.{
  CredentialIntrospectionRequest, CredentialIntrospectionResult, introspect_grant, introspect_from,
  introspect_credential, is_live,
}
use aixion_control_tower.Trust.Service.Covered.{DistinctIds, Sound}
use aixion_control_tower.Trust.Service.Reach.{Steps, Stopped, Steps-Stopped}

-- A lease that is ACTIVE and has not expired.
pub record LiveLease (now : Instant) (found : Option CapabilityLease) : Type 0 where
  pub lease : CapabilityLease
  pub is : found ≡ some lease
  pub active : lease.status ≡ CapabilityLeaseStatus.active
  pub unexpired : now < lease.expires_at

is_live-LiveLease :
    (now : Instant) (found : Option CapabilityLease)
    → is_live now found ≡ true
    → LiveLease now found
is_live-LiveLease now none h = ground arith
is_live-LiveLease now (some lease) h = record {
  lease = lease;
  is = refl;
  active = ground (arith, h, eq_iff lease.status CapabilityLeaseStatus.active);
  unexpired = ground (arith, h);
}

LiveLease-is_live :
    (now : Instant) (found : Option CapabilityLease)
    → LiveLease now found
    → is_live now found ≡ true
LiveLease-is_live now found l =
    let lease = l.lease in
    let both = eq_iff lease.status CapabilityLeaseStatus.active in
    subst (λ f. is_live now f ≡ true) (sym l.is) (ground (arith, l.active, l.unexpired, both))

-- A grant that is neither revoked nor expired, has the audience and the scope that are asked for, and
-- stands under a live lease.
pub record Usable (now : Instant) (payload : CredentialIntrospectionRequest)
    (leases : List CapabilityLease) (g : CredentialGrant) : Type 0 where
  pub open_grant : g.revoked ≡ false
  pub unexpired : now < g.expires_at
  pub under : LiveLease now (get g.lease_id leases)
  pub audience : g.audience ≡ payload.audience
  pub scope : all (λ item. contains item g.scope) payload.required_scope ≡ true

introspect_grant-active :
    (now : Instant) (payload : CredentialIntrospectionRequest) (leases : List CapabilityLease)
    (h g : CredentialGrant)
    → introspect_grant now payload h leases ≡ CredentialIntrospectionResult.active g
    → (h ≡ g) × Usable now payload leases h
unfolding introspect_grant
introspect_grant-active now payload leases h g e = (
  ground (arith, e),
  record {
    open_grant = ground (arith, e);
    unexpired = ground (arith, e);
    under = is_live-LiveLease now (get h.lease_id leases) (ground (arith, e));
    audience = ground (arith, e, eq_iff h.audience payload.audience);
    scope = ground (arith, e);
  },
)

Usable-introspect_grant :
    (now : Instant) (payload : CredentialIntrospectionRequest) (leases : List CapabilityLease)
    (g : CredentialGrant)
    → Usable now payload leases g
    → introspect_grant now payload g leases ≡ CredentialIntrospectionResult.active g
unfolding introspect_grant
Usable-introspect_grant now payload leases g u =
    let live = LiveLease-is_live now (get g.lease_id leases) u.under in
    ground (
      arith,
      u.open_grant,
      u.unexpired,
      live,
      u.audience,
      u.scope,
      eq_iff g.audience payload.audience,
    )

module _ (o : Outside) where
  abbrev pub is_presented : CredentialIntrospectionRequest → CredentialGrant → Bool
  is_presented payload g = o.token_hash payload.bearer_token == g.token_hash

  -- The first grant with the presented token, which is usable.
  pub record Live (now : Instant) (payload : CredentialIntrospectionRequest)
      (leases : List CapabilityLease) (grants : List CredentialGrant) (g : CredentialGrant)
      : Type 0 where
    pub first : find_first (is_presented payload) grants ≡ some g
    pub usable : Usable now payload leases g

  module _ (now : Instant) (payload : CredentialIntrospectionRequest)
      (leases : List CapabilityLease) (g : CredentialGrant) where
    introspect_from-active :
        (grants : List CredentialGrant)
        → introspect_from o now payload leases grants ≡ CredentialIntrospectionResult.active g
        → Live now payload leases grants g
    introspect_from-active [] e = ground arith
    introspect_from-active (h ∷ rest) e =
        elim (Bool-cases (o.token_hash payload.bearer_token != h.token_hash)) [
          | inl differs ↦
              let later = introspect_from-active rest (rw differs at e) in
              let passed : is_presented payload h ≡ false = ground (arith, differs) in
              record { first = rw passed later.first; usable = later.usable }
          | inr same ↦
              let (own, usable) = introspect_grant-active now payload leases h g (rw same at e) in
              let its : is_presented payload h ≡ true = ground (arith, same) in
              record {
                first = rw its (ap some own);
                usable = subst (Usable now payload leases) own usable;
              }
        ]

    Live-introspect_from :
        (grants : List CredentialGrant)
        → Live now payload leases grants g
        → introspect_from o now payload leases grants ≡ CredentialIntrospectionResult.active g
    Live-introspect_from [] l = absurd (none-ne-some g l.first)
    Live-introspect_from (h ∷ rest) l = elim (Bool-cases (is_presented payload h)) [
      | inl its ↦
          let same : (o.token_hash payload.bearer_token != h.token_hash) ≡ false =
            ground (arith, its) in
          let own : h ≡ g = some-injective h g (rw its at l.first) in
          rw same (
            subst
              (λ x. introspect_grant now payload x leases ≡ CredentialIntrospectionResult.active g)
              (sym own) (Usable-introspect_grant now payload leases g l.usable))
      | inr passed ↦
          let differs : (o.token_hash payload.bearer_token != h.token_hash) ≡ true =
            ground (arith, passed) in
          rw differs
            (Live-introspect_from rest (record { first = rw passed at l.first; usable = l.usable }))
    ]

  -- A credential is answered as active exactly when it is the first one with the presented token, is
  -- neither revoked nor expired, has the audience and the scope that are asked for, and stands under an
  -- ACTIVE lease that has not expired.
  pub introspect_credential_iff :
      (now : Instant) (payload : CredentialIntrospectionRequest) (s : TrustStore)
      (g : CredentialGrant)
      → (introspect_credential o now payload s ≡ CredentialIntrospectionResult.active g)
        ↔ Live now payload s.leases s.grants g
  unfolding introspect_credential
  introspect_credential_iff now payload s g = (
    introspect_from-active now payload s.leases g s.grants,
    Live-introspect_from now payload s.leases g s.grants,
  )

  -- Once a lease is not ACTIVE, by revocation or expiry, no credential under it is ever answered as
  -- active again, whatever is called in between.
  pub introspect_credential-Stopped :
      {s t : TrustStore} (gap : ℕ) (id : String) (now : Instant)
      (payload : CredentialIntrospectionRequest) (g : CredentialGrant)
      → DistinctIds o
      → Sound o gap s
      → Stopped o gap id s
      → Steps o gap s t
      → g.lease_id ≡ id
      → introspect_credential o now payload t ≢ CredentialIntrospectionResult.active g
  introspect_credential-Stopped {s} {t} gap id now payload g distinct k h steps its e =
      let after = Steps-Stopped o gap id distinct steps k h in
      let live = ((introspect_credential_iff now payload t g).0 e).usable.under in
      let own : after.lease ≡ live.lease =
        some-injective after.lease live.lease
          (sym after.found ∙ ap (λ i. get i t.leases) (sym its) ∙ live.is) in
      let on : after.lease.status ≡ CapabilityLeaseStatus.active =
        ap (λ (l : CapabilityLease). l.status) own ∙ live.active in
      ground (arith, on, after.idle, eq_iff after.lease.status CapabilityLeaseStatus.active)
