-- ===== src/Mcp/GatewayLaws.antt =====
-- What the gate forwards, and that it ends (mcp_gateway.py: resolve_after_side_channel_decision).
use aixion_control_tower.Prelude.{
  ◌≡◌, ◌⊎◌, refl, ap, ◌∙◌, Bool, true, not, Option, none, some, List, [], ◌∷◌, String, ◌!=◌, arith,
  is_set, find_first, eq_iff, option_eq, string_eq, Bool-cases, inl, inr,
}
use aixion_control_tower.Prelude.Dict.{get}
use aixion_control_tower.AgentRun.Models.{Instant}
use aixion_control_tower.Approvals.Models.{
  ApprovalRequest, ApprovalStatus, approval_status_eq, approval_keyed,
}
use aixion_control_tower.Approvals.Integrity.{approval_payload_snapshot}
use aixion_control_tower.Mcp.Models.{
  McpPendingStatus, mcp_status_eq, McpPendingRequest, pending_call_keyed, Gateway, Surroundings,
}
use aixion_control_tower.Mcp.Gateway.{
  is_final, is_lease_live, reopen, pending_for_approval, update_first, update_pending,
  resolve_approval, resolve_pending, resolve_after_side_channel_decision,
}

pub find_first-update :
    {A : Type 0} (p : A → Bool) (f : A → A) (xs : List A) (x : A)
    → find_first p xs ≡ some x
    → p (f x) ≡ true
    → find_first p (update_first p f xs) ≡ some (f x)
find_first-update p f [] x h k = ground arith
find_first-update p f (y ∷ ys) x h k = elim (Bool-cases (p y)) [
  | inl hit ↦
      let own : y ≡ x = ground (arith, h, hit) in
      let holds : p (f y) ≡ true = ap (λ z. p (f z)) own ∙ k in
      rw (hit, holds) (ap (λ z. some (f z)) own)
  | inr miss ↦ rw (miss, miss) (find_first-update p f ys x (rw miss at h) k)
]

-- The approval of a call allows it to be forwarded: it is APPROVED and its payload is unchanged since.
pub record MayForward (o : Surroundings) (approval_id : String) (g : Gateway) : Type 0 where
  pub approval : ApprovalRequest
  pub found : get approval_id g.approvals ≡ some approval
  pub approved : approval.status ≡ ApprovalStatus.approved
  pub set : is_set approval.approved_payload_hash ≡ true
  pub unchanged :
      approval.approved_payload_hash ≡ some (o.payload_hash (approval_payload_snapshot approval))

resolve_given :
    (found : Option ApprovalRequest) (o : Surroundings) (now : Instant) (id : String) (g : Gateway)
    → get id g.approvals ≡ found
    → MayForward o id g ⊎ ((resolve_approval found o now id g).1.sent ≡ g.sent)
resolve_given none o now id g there = inr refl
resolve_given (some approval) o now id g there =
    elim (Bool-cases (approval.status != ApprovalStatus.approved)) [
      | inl refused ↦ inr (rw refused refl)
      | inr approved ↦ elim (Bool-cases (not (is_set approval.approved_payload_hash))) [
        | inl missing ↦ inr (rw (approved, missing) refl)
        | inr set ↦
            elim (Bool-cases (
              some (o.payload_hash (approval_payload_snapshot approval))
              != approval.approved_payload_hash)) [
                | inl changed ↦ inr (rw (approved, set, changed) refl)
                | inr same ↦ inl (record {
                  approval = approval;
                  found = there;
                  approved =
                      ground (arith, approved, eq_iff approval.status ApprovalStatus.approved);
                  set = ground (arith, set);
                  unchanged = ground (
                    arith,
                    same,
                    eq_iff (some (o.payload_hash (approval_payload_snapshot approval)))
                        approval.approved_payload_hash,
                  );
                })
              ]
      ]
    ]

resolve_pending-sent :
    (found : Option McpPendingRequest) (o : Surroundings) (now : Instant) (id : String)
    (g : Gateway)
    → MayForward o id g ⊎ ((resolve_pending found o now id g).1.sent ≡ g.sent)
resolve_pending-sent none o now id g = resolve_given (get id g.approvals) o now id g refl
resolve_pending-sent (some p) o now id g = elim (Bool-cases (is_final p.status)) [
  | inl final ↦ inr (rw final refl)
  | inr moving ↦ elim (Bool-cases (p.status != McpPendingStatus.forwarding)) [
    | inl waits ↦ rw (moving, waits) (resolve_given (get id g.approvals) o now id g refl)
    | inr forwards ↦ elim (Bool-cases (is_lease_live now p)) [
      | inl live ↦ inr (rw (moving, forwards, live) refl)
      | inr run_out ↦
          rw (moving, forwards, run_out)
            (elim (resolve_given (get id g.approvals) o now id (update_pending id (reopen now) g)
              refl) [
                | inl m ↦ inl (record {
                  approval = m.approval;
                  found = m.found;
                  approved = m.approved;
                  set = m.set;
                  unchanged = m.unchanged;
                })
                | inr same ↦ inr same
              ])
    ]
  ]
]

-- A decision sends the child a call only for an approval that is APPROVED with a sealed payload that
-- has not changed since; otherwise it sends nothing.
pub resolve_after_side_channel_decision-sent :
    (o : Surroundings) (now : Instant) (id : String) (g : Gateway)
    → MayForward o id g ⊎ ((resolve_after_side_channel_decision o now id g).1.sent ≡ g.sent)
unfolding resolve_after_side_channel_decision
resolve_after_side_channel_decision-sent o now id g =
    resolve_pending-sent (pending_for_approval id g) o now id g
