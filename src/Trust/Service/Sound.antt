-- ===== src/Trust/Service/Sound.antt =====
-- The invariants of the trust plane's store (backend/app/trust_*.py), over its writes.
use aixion_control_tower.Prelude.{
  ℕ, ◌+◌, ◌≤◌, ◌≡◌, refl, sym, ap, ◌∙◌, true, String, arith, eq_iff, string_eq,
}
use aixion_control_tower.Prelude.Lists.{All}
use mathlib.Core.Path.{subst}
use aixion_control_tower.Prelude.Lists.{All-map}
use aixion_control_tower.Prelude.Dict.{get, All-put, All-get}
use aixion_control_tower.AgentRun.Models.{Instant}
use aixion_control_tower.Trust.Models.{CapabilityLeaseStatus, lease_status_eq}
use aixion_control_tower.Trust.Leases.{lease_keyed}
use aixion_control_tower.Trust.Records.{grant_keyed}
use aixion_control_tower.Trust.FlightRecorder.Chain.{
  TrustEventCall, event_keyed, verify_flight_recorder,
}
use aixion_control_tower.Trust.FlightRecorder.History.{append_trust_event-valid}
use aixion_control_tower.Trust.State.{Outside, TrustStore, record_event}
use aixion_control_tower.Trust.Service.Lifecycle.{revoke_lease}
use aixion_control_tower.Trust.Service.Credentials.{revoke_grant}
use aixion_control_tower.Trust.Service.Moves.{
  WithinBudget, Move, Move.tell, Move.renew, Move.revoke, Move.issue, Move.grant, Move.drop_grant,
  Move.other, Moves, Moves.none_made, Moves.next,
}
use aixion_control_tower.Trust.Service.Covered.{
  DistinctIds, Covered, Drawn, Sound, later, latest, fresh, Covered-renewed, Covered-new,
  Covered-dropped, All-revoked,
}

module _ (o : Outside) (gap : ℕ) (distinct : DistinctIds o) where
  tell-Sound :
      {s : TrustStore} (now : Instant) (call : TrustEventCall)
      → Sound o gap s
      → Sound o gap (record_event o now call s)
  unfolding record_event
  tell-Sound {s} now call k =
      let id = o.new_id "trust_event" s.drawn in
      record {
        budgets = k.budgets;
        recorded =
            append_trust_event-valid o.event_hash id now call s.events k.recorded
              (fresh o distinct "trust_event" s.drawn s.events k.event_ids);
        event_ids =
            All-put (λ e. Drawn o "trust_event" (s.drawn + 1) e.id) _ s.events
              (latest o "trust_event" s.drawn)
              (All-map _ _ s.events
                (λ e. later o "trust_event" s.drawn (s.drawn + 1) e.id (omega arith)) k.event_ids);
        lease_ids =
            All-map _ _ s.leases (λ l. later o "lease" s.drawn (s.drawn + 1) l.id (omega arith))
              k.lease_ids;
        covered = k.covered;
      }

  other-Sound :
      {s t : TrustStore}
      → t.leases ≡ s.leases
      → t.grants ≡ s.grants
      → t.events ≡ s.events
      → s.drawn ≤ t.drawn
      → Sound o gap s
      → Sound o gap t
  other-Sound {s} {t} ls gs es le k = record {
    budgets = subst (All WithinBudget) (sym ls) k.budgets;
    recorded =
        subst (λ es. (verify_flight_recorder o.event_hash es).valid ≡ true) (sym es) k.recorded;
    event_ids =
        subst (All (λ e. Drawn o "trust_event" t.drawn e.id)) (sym es)
          (All-map _ _ s.events (λ e. later o "trust_event" s.drawn t.drawn e.id le) k.event_ids);
    lease_ids =
        subst (All (λ l. Drawn o "lease" t.drawn l.id)) (sym ls)
          (All-map _ _ s.leases (λ l. later o "lease" s.drawn t.drawn l.id le) k.lease_ids);
    covered =
        subst (λ ls. All (Covered gap ls) t.grants) (sym ls)
          (subst (All (Covered gap s.leases)) (sym gs) k.covered);
  }

  -- Every write keeps the invariants.
  pub Move-Sound : {s t : TrustStore} → Move o gap s t → Sound o gap s → Sound o gap t
  Move-Sound (tell now call) k = tell-Sound now call k
  Move-Sound (other ls gs es le) k = other-Sound ls gs es le k
  Move-Sound (renew {s} before after there active same expires still within) k = record {
    budgets = All-put WithinBudget after s.leases within k.budgets;
    recorded = k.recorded;
    event_ids = k.event_ids;
    lease_ids =
        All-put (λ l. Drawn o "lease" s.drawn l.id) after s.leases
          (subst (Drawn o "lease" s.drawn) (sym same) (
            All-get (λ l. Drawn o "lease" s.drawn l.id) before.id s.leases before k.lease_ids
              there))
          k.lease_ids;
    covered =
        All-map _ _ s.grants
          (λ g. Covered-renewed gap before after s.leases g there same expires still) k.covered;
  }
  Move-Sound (revoke {s} lease now user reason there) k = record {
    budgets =
        All-put WithinBudget (revoke_lease now user reason lease) s.leases
          (let b = All-get WithinBudget lease.id s.leases lease k.budgets there in
            record {
              runtime = b.runtime;
              cost = b.cost;
              pull_requests = b.pull_requests;
              retries = b.retries;
            })
          k.budgets;
    recorded = k.recorded;
    event_ids = k.event_ids;
    lease_ids =
        All-put (λ l. Drawn o "lease" s.drawn l.id) (revoke_lease now user reason lease) s.leases
          (All-get (λ l. Drawn o "lease" s.drawn l.id) lease.id s.leases lease k.lease_ids there)
          k.lease_ids;
    covered = All-revoked gap lease now user reason s.leases s.grants there k.covered;
  }
  Move-Sound (issue {s} lease drawn within) k =
      let more : (prefix : String) (id : String)
          → Drawn o prefix s.drawn id
          → Drawn o prefix (s.drawn + 1) id =
        λ prefix id. later o prefix s.drawn (s.drawn + 1) id (omega arith) in
      record {
        budgets = All-put WithinBudget lease s.leases within k.budgets;
        recorded = k.recorded;
        event_ids = All-map _ _ s.events (λ e. more "trust_event" e.id) k.event_ids;
        lease_ids =
            All-put (λ l. Drawn o "lease" (s.drawn + 1) l.id) lease s.leases
              (subst (Drawn o "lease" (s.drawn + 1)) (sym drawn) (latest o "lease" s.drawn))
              (All-map _ _ s.leases (λ l. more "lease" l.id) k.lease_ids);
        covered =
            All-map _ _ s.grants
              (λ g. Covered-new gap lease s.leases g (
                ap (λ i. get i s.leases) drawn
                ∙ fresh o distinct "lease" s.drawn s.leases k.lease_ids))
              k.covered;
      }
  Move-Sound (grant {s} lease g there active its outlived) k =
      let more : (prefix : String) (id : String)
          → Drawn o prefix s.drawn id
          → Drawn o prefix (s.drawn + 1) id =
        λ prefix id. later o prefix s.drawn (s.drawn + 1) id (omega arith) in
      record {
        budgets = k.budgets;
        recorded = k.recorded;
        event_ids = All-map _ _ s.events (λ e. more "trust_event" e.id) k.event_ids;
        lease_ids = All-map _ _ s.leases (λ l. more "lease" l.id) k.lease_ids;
        covered =
            All-put (Covered gap s.leases) g s.grants
              (record {
                lease = lease;
                found = ap (λ i. get i s.leases) its ∙ there;
                outlived = outlived;
                stopped = ground (arith, active, eq_iff lease.status CapabilityLeaseStatus.revoked);
              })
              k.covered;
      }
  Move-Sound (drop_grant {s} g now user reason there) k = record {
    budgets = k.budgets;
    recorded = k.recorded;
    event_ids = k.event_ids;
    lease_ids = k.lease_ids;
    covered =
        All-put (Covered gap s.leases) (revoke_grant now user reason g) s.grants
          (Covered-dropped gap s.leases g (revoke_grant now user reason g) refl refl refl
            (All-get (Covered gap s.leases) g.id s.grants g k.covered there))
          k.covered;
  }

  pub Moves-Sound : {s t : TrustStore} → Moves o gap s t → Sound o gap s → Sound o gap t
  Moves-Sound none_made k = k
  Moves-Sound (next w rest) k = Moves-Sound rest (Move-Sound w k)
