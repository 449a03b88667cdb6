-- ===== src/Trust/Service/Covered.antt =====
-- Grants under leases that outlive them, and ids that are drawn (backend/app/trust_*.py).
use aixion_control_tower.Prelude.{
  ℕ, ◌+◌, ◌<◌, ◌≤◌, ◌≡◌, refl, sym, ap, ◌∙◌, true, false, not, ◌||◌, none, some, List, [], ◌∷◌,
  String, arith, map, inl, inr, ◌&&◌, ◌==◌, eq_iff, string_eq, Bool-cases, if◌then◌else◌,
  Option-cases,
}
use aixion_control_tower.Prelude.Lists.{All}
use mathlib.Core.Option.{some-injective, none-ne-some}
use mathlib.Core.Path.{subst}
use aixion_control_tower.Prelude.Dict.{Keyed, get, put, get-put, get-put_self, key-get, All-get}
use aixion_control_tower.AgentRun.Models.{Instant}
use aixion_control_tower.Trust.Models.{CapabilityLeaseStatus, lease_status_eq}
use aixion_control_tower.Trust.Leases.{CapabilityLease, lease_keyed}
use aixion_control_tower.Trust.Records.{AuthUser, CredentialGrant, grant_keyed}
use aixion_control_tower.Trust.FlightRecorder.Chain.{event_keyed, verify_flight_recorder}
use aixion_control_tower.Trust.State.{Outside, TrustStore}
use aixion_control_tower.Trust.Service.Lifecycle.{revoke_lease, revoke_grant_of}
use aixion_control_tower.Trust.Service.Moves.{WithinBudget}

-- Ids that are drawn one after the other differ.
abbrev pub DistinctIds : Outside → Type 0
DistinctIds o = (prefix : String) (a b : ℕ) → o.new_id prefix a ≡ o.new_id prefix b → a ≡ b

-- The grant's lease is in the store and outlives it but for `gap`, and is not revoked unless the grant is.
pub record Covered (gap : ℕ) (leases : List CapabilityLease) (g : CredentialGrant) : Type 0 where
  pub lease : CapabilityLease
  pub found : get g.lease_id leases ≡ some lease
  pub outlived : g.expires_at ≤ lease.expires_at + gap
  pub stopped : (g.revoked || not (lease.status == CapabilityLeaseStatus.revoked)) ≡ true

-- One of the ids drawn so far.
pub record Drawn (o : Outside) (prefix : String) (n : ℕ) (id : String) : Type 0 where
  pub number : ℕ
  pub below : number < n
  pub same : id ≡ o.new_id prefix number

pub record Sound (o : Outside) (gap : ℕ) (s : TrustStore) : Type 0 where
  pub budgets : All WithinBudget s.leases
  pub recorded : (verify_flight_recorder o.event_hash s.events).valid ≡ true
  pub event_ids : All (λ e. Drawn o "trust_event" s.drawn e.id) s.events
  pub lease_ids : All (λ l. Drawn o "lease" s.drawn l.id) s.leases
  pub covered : All (Covered gap s.leases) s.grants

module _ (o : Outside) where
  pub later :
      (prefix : String) (n m : ℕ) (id : String) → n ≤ m → Drawn o prefix n id → Drawn o prefix m id
  later prefix n m id le d = record {
    number = d.number;
    below = omega (arith, le, d.below);
    same = d.same;
  }

  pub latest : (prefix : String) (n : ℕ) → Drawn o prefix (n + 1) (o.new_id prefix n)
  latest prefix n = record { number = n; below = omega arith; same = refl }

  -- No record has an id that is yet to be drawn.
  not_drawn :
      (distinct : DistinctIds o) (prefix : String) (n : ℕ) → ¬ Drawn o prefix n (o.new_id prefix n)
  not_drawn distinct prefix n d =
      let e = distinct prefix n d.number d.same in omega (arith, e, d.below)

module _ (o : Outside) {A : Type 0} ⦃k : Keyed A⦄ where
  -- An id that is yet to be drawn is nobody's.
  pub fresh :
      (distinct : DistinctIds o) (prefix : String) (n : ℕ) (xs : List A)
      → All (λ x. Drawn o prefix n (k.key x)) xs
      → get (o.new_id prefix n) xs ≡ none
  fresh distinct prefix n xs h = elim (Option-cases (get (o.new_id prefix n) xs)) [
    | inl nothing ↦ nothing
    | inr (x, there) ↦ absurd (
        not_drawn o distinct prefix n (
          subst (Drawn o prefix n) (key-get (o.new_id prefix n) xs x there)
            (All-get (λ y. Drawn o prefix n (k.key y)) (o.new_id prefix n) xs x h there)))
  ]

-- The write of another lease keeps a grant covered.
Covered-other :
    (gap : ℕ) (lease : CapabilityLease) (leases : List CapabilityLease) (g : CredentialGrant)
    → (lease.id == g.lease_id) ≡ false
    → Covered gap leases g
    → Covered gap (put lease leases) g
Covered-other gap lease leases g others c = record {
  lease = c.lease;
  found =
      get-put lease g.lease_id leases
      ∙ ap (λ b. if b then some lease else get g.lease_id leases) others
      ∙ c.found;
  outlived = c.outlived;
  stopped = c.stopped;
}

-- So does the write of its own lease, if the expiry stays and it is not revoked without the grant.
Covered-own :
    (gap : ℕ) (before after : CapabilityLease) (leases : List CapabilityLease) (g : CredentialGrant)
    → get before.id leases ≡ some before
    → after.id ≡ before.id
    → after.expires_at ≡ before.expires_at
    → (g.revoked || not (after.status == CapabilityLeaseStatus.revoked)) ≡ true
    → after.id ≡ g.lease_id
    → Covered gap leases g
    → Covered gap (put after leases) g
Covered-own gap before after leases g there same expires stopped id c =
    let l = c.lease in
    let own : before ≡ l =
      some-injective before l (sym there ∙ ap (λ i. get i leases) (sym same ∙ id) ∙ c.found) in
    let lives : before.expires_at ≡ l.expires_at = ap (λ (x : CapabilityLease). x.expires_at) own in
    record {
      lease = after;
      found = get-put_self after g.lease_id leases id;
      outlived = omega (arith, expires, lives, c.outlived);
      stopped = stopped;
    }

pub Covered-renewed :
    (gap : ℕ) (before after : CapabilityLease) (leases : List CapabilityLease) (g : CredentialGrant)
    → get before.id leases ≡ some before
    → after.id ≡ before.id
    → after.expires_at ≡ before.expires_at
    → (after.status == CapabilityLeaseStatus.revoked) ≡ false
    → Covered gap leases g
    → Covered gap (put after leases) g
Covered-renewed gap before after leases g there same expires still c =
    elim (Bool-cases (after.id == g.lease_id)) [
      | inl its ↦
          Covered-own gap before after leases g there same expires (ground (arith, still))
            ((eq_iff after.id g.lease_id).0 its) c
      | inr others ↦ Covered-other gap after leases g others c
    ]

-- A lease under a fresh id keeps the grants covered.
pub Covered-new :
    (gap : ℕ) (lease : CapabilityLease) (leases : List CapabilityLease) (g : CredentialGrant)
    → get lease.id leases ≡ none
    → Covered gap leases g
    → Covered gap (put lease leases) g
Covered-new gap lease leases g absent c = elim (Bool-cases (lease.id == g.lease_id)) [
  | inl its ↦ absurd (
      none-ne-some c.lease
        (sym absent ∙ ap (λ i. get i leases) ((eq_iff lease.id g.lease_id).0 its) ∙ c.found))
  | inr others ↦ Covered-other gap lease leases g others c
]

-- A grant that is revoked, all else being the same, is still covered.
pub Covered-dropped :
    (gap : ℕ) (leases : List CapabilityLease) (g h : CredentialGrant)
    → h.lease_id ≡ g.lease_id
    → h.expires_at ≡ g.expires_at
    → h.revoked ≡ true
    → Covered gap leases g
    → Covered gap leases h
Covered-dropped gap leases g h same expires gone c = record {
  lease = c.lease;
  found = ap (λ i. get i leases) same ∙ c.found;
  outlived = omega (arith, expires, c.outlived);
  stopped = ground (arith, gone);
}

-- The revocation of a lease with its grants keeps them covered.
Covered-revoked :
    (gap : ℕ) (lease : CapabilityLease) (now : Instant) (user : AuthUser) (reason : String)
    (leases : List CapabilityLease) (g : CredentialGrant)
    → get lease.id leases ≡ some lease
    → Covered gap leases g
    → Covered gap (put (revoke_lease now user reason lease) leases) (revoke_grant_of now lease.id g)
Covered-revoked gap lease now user reason leases g there c =
    let after = revoke_lease now user reason lease in
    let both = eq_iff g.lease_id lease.id in
    elim (Bool-cases ((g.lease_id == lease.id) && not g.revoked)) [
      | inl taken ↦
          let id : lease.id ≡ g.lease_id = ground (arith, both, taken) in
          rw taken (
            Covered-own gap lease after leases _ there refl refl refl id (
              Covered-dropped gap leases g (record g { revoked = true; revoked_at = some now }) refl
                refl refl c))
      | inr passed ↦ rw passed (elim (Bool-cases (lease.id == g.lease_id)) [
        | inl its ↦
            let id = (eq_iff lease.id g.lease_id).0 its in
            Covered-own gap lease after leases g there refl refl (ground (arith, both, id, passed))
              id c
        | inr others ↦ Covered-other gap after leases g others c
      ])
    ]

pub All-revoked :
    (gap : ℕ) (lease : CapabilityLease) (now : Instant) (user : AuthUser) (reason : String)
    (leases : List CapabilityLease) (gs : List CredentialGrant)
    → get lease.id leases ≡ some lease
    → All (Covered gap leases) gs
    → All
        (Covered gap (put (revoke_lease now user reason lease) leases))
        (map (revoke_grant_of now lease.id) gs)
All-revoked gap lease now user reason leases [] there h = tt
All-revoked gap lease now user reason leases (g ∷ gs) there h = (
  Covered-revoked gap lease now user reason leases g there h.0,
  All-revoked gap lease now user reason leases gs there h.1,
)
