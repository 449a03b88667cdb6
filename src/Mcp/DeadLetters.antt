-- ===== src/Mcp/DeadLetters.antt =====
-- Forwarding that keeps failing ends in the dead letters (mcp_gateway.py).
use aixion_control_tower.Prelude.{
  ℕ, zero, suc, All, either_branch, ◌==◌, string_eq, ◌+◌, ◌≡◌, refl, sym, ap, ◌∙◌, true, false, not,
  Option, none, some, List, [], ◌∷◌, ◌++◌, String, ◌!=◌, arith, is_set, length, eq_iff, option_eq,
  string_eq,
}
use mathlib.Core.Path.{subst}
use mathlib.Core.List.{append_assoc}
use aixion_control_tower.Prelude.Lists.{find_first-holds}
use aixion_control_tower.Prelude.Dict.{get, All-get, key-get}
use aixion_control_tower.AgentRun.Models.{Instant}
use aixion_control_tower.Approvals.Models.{ApprovalStatus, approval_status_eq, approval_keyed}
use aixion_control_tower.Approvals.Integrity.{approval_payload_snapshot}
use aixion_control_tower.Mcp.Models.{
  ChildMcpToolCall, McpPendingStatus, mcp_status_eq, McpPendingRequest, ToolCall, PendingCall,
  pending_call_keyed, Gateway, Surroundings,
}
use aixion_control_tower.Mcp.Gateway.{
  child_call, drop_call, call_of, is_final, is_for, pending_for_approval, update_pending, can_lease,
  take_lease, fail_forward, recover_pending_call, pop_or_recover, lease_and_forward, resolve_call,
  popped, resolve_after_side_channel_decision,
}
use aixion_control_tower.Mcp.GatewayLaws.{MayForward, find_first-update}

-- What a pending request asks of the child.
abbrev pub requested : McpPendingRequest → ChildMcpToolCall
requested p = record {
  server_name = p.server_name;
  tool_name = p.tool_name;
  arguments = p.arguments;
  session_id = p.session_id;
  requested_by = p.requested_by;
}

-- The call in memory for this approval, if there is one, is the call of the pending request.
abbrev pub Fits : String → McpPendingRequest → PendingCall → Type 0
Fits id p c = c.approval_request_id ≡ id → child_call c.call ≡ requested p

drop_call-All :
    (P : PendingCall → Type 0) (id : String) (cs : List PendingCall)
    → All P cs
    → All P (drop_call id cs)
drop_call-All P id [] h = h
drop_call-All P id (c ∷ rest) h =
    either_branch (All P) (c.approval_request_id == id) rest (c ∷ drop_call id rest) h.1
      (h.0, drop_call-All P id rest h.1)

-- A decision after which the child's answer was an error: the request was sent once more.
record Failed (now : Instant) (e : String) (id : String) (p : McpPendingRequest) (g g' : Gateway)
    : Type 0 where
  after : pending_for_approval id g' ≡ some (fail_forward now e (take_lease now p))
  approvals : g'.approvals ≡ g.approvals
  sent : g'.sent ≡ g.sent ++ requested p ∷ []
  calls : All (Fits id p) g'.pending_calls

updated :
    (id : String) (f : McpPendingRequest → McpPendingRequest) (p : McpPendingRequest) (g : Gateway)
    → pending_for_approval id g ≡ some p
    → is_for id (f p) ≡ true
    → pending_for_approval id (update_pending id f g) ≡ some (f p)
updated id f p g there same = find_first-update (is_for id) f g.pending p there same

module _ (o : Surroundings) (e : String)
    (fails : (call : ChildMcpToolCall) → o.call_tool call ≡ some e) (now : Instant) (id : String)
    (p : McpPendingRequest) where
  forward-Failed :
      (call : ToolCall) (g : Gateway)
      → pending_for_approval id g ≡ some p
      → can_lease now p ≡ true
      → child_call call ≡ requested p
      → All (Fits id p) g.pending_calls
      → Failed now e id p g (lease_and_forward (some p) o now id call g).1
  forward-Failed call g there free same fit =
      let own : is_for id p ≡ true = find_first-holds (is_for id) g.pending p there in
      let leased = update_pending id (take_lease now) g in
      let asked : Gateway = record leased { sent = leased.sent ++ child_call call ∷ [] } in
      let taken = updated id (take_lease now) p g there own in
      rw (free, fails (child_call call))
        (record {
          after = updated id (fail_forward now e) (take_lease now p) asked taken own;
          approvals = refl;
          sent = ap (λ c. g.sent ++ c ∷ []) same;
          calls = fit;
        })

  of_call :
      (call : ToolCall) (g : Gateway)
      → pending_for_approval id g ≡ some p
      → can_lease now p ≡ true
      → child_call call ≡ requested p
      → All (Fits id p) g.pending_calls
      → Failed now e id p g (resolve_call (some call) o now id (popped id g)).1
  of_call call g there free same fit =
      subst (λ q. Failed now e id p g (lease_and_forward q o now id call (popped id g)).1)
        (sym there)
        (let f =
            forward-Failed call (popped id g) there free same
              (drop_call-All (Fits id p) id g.pending_calls fit) in
          record { after = f.after; approvals = f.approvals; sent = f.sent; calls = f.calls })

  may_lease : p.status ≡ McpPendingStatus.waiting_for_approval → can_lease now p ≡ true
  may_lease waits = ground (
    arith,
    waits,
    eq_iff p.status McpPendingStatus.forwarding,
    eq_iff p.status McpPendingStatus.waiting_for_approval,
  )

  resolve-Failed :
      (entry : Option PendingCall) (g : Gateway)
      → get id g.pending_calls ≡ entry
      → pending_for_approval id g ≡ some p
      → p.status ≡ McpPendingStatus.waiting_for_approval
      → All (Fits id p) g.pending_calls
      → Failed now e id p g (resolve_call (pop_or_recover entry (some p)) o now id (popped id g)).1
  resolve-Failed (some c) g held there waits fit =
      of_call c.call g there (may_lease waits)
        (All-get (Fits id p) id g.pending_calls c fit held (key-get id g.pending_calls c held)) fit
  resolve-Failed none g held there waits fit =
      let recovered : recover_pending_call (some p) ≡ some (call_of p) =
        ground (arith, waits, eq_iff p.status McpPendingStatus.waiting_for_approval) in
      subst (λ c. Failed now e id p g (resolve_call c o now id (popped id g)).1) (sym recovered)
        (of_call (call_of p) g there (may_lease waits) refl fit)

  decision-Failed :
      (g : Gateway)
      → MayForward o id g
      → pending_for_approval id g ≡ some p
      → p.status ≡ McpPendingStatus.waiting_for_approval
      → All (Fits id p) g.pending_calls
      → Failed now e id p g (resolve_after_side_channel_decision o now id g).1
  unfolding resolve_after_side_channel_decision
  decision-Failed g may there waits fit =
      let approval = may.approval in
      let hash = some (o.payload_hash (approval_payload_snapshot approval)) in
      let moving : is_final p.status ≡ false = ground (arith, waits) in
      let not_forwarding : (p.status != McpPendingStatus.forwarding) ≡ true =
        ground (arith, waits) in
      let approved : (approval.status != ApprovalStatus.approved) ≡ false =
        ground (arith, may.approved, eq_iff approval.status ApprovalStatus.approved) in
      let sealed : not (is_set approval.approved_payload_hash) ≡ false = ground (arith, may.set) in
      let same : (hash != approval.approved_payload_hash) ≡ false =
        ground (arith, may.unchanged, eq_iff hash approval.approved_payload_hash) in
      rw (there, moving, not_forwarding, may.found, approved, sealed, same, there)
        (resolve-Failed (get id g.pending_calls) g refl there waits fit)

-- One decision after the other, at the times of the list.
abbrev pub resolve_each : Surroundings → String → List Instant → Gateway → Gateway
resolve_each o id [] g = g
resolve_each o id (now ∷ rest) g =
    resolve_each o id rest (resolve_after_side_channel_decision o now id g).1

abbrev pub repeated : {A : Type 0} → ℕ → A → List A
repeated zero x = []
repeated (suc n) x = x ∷ repeated n x

-- The request is in the dead letters, out of attempts, and the child was sent its call `n` times.
pub record Buried (id : String) (p : McpPendingRequest) (n : ℕ) (g g' : Gateway) : Type 0 where
  pub pending : McpPendingRequest
  pub found : pending_for_approval id g' ≡ some pending
  pub dead : pending.status ≡ McpPendingStatus.dead_letter
  pub spent : pending.attempts ≡ pending.max_attempts
  pub sent : g'.sent ≡ g.sent ++ repeated n (requested p)

kept_may :
    (o : Surroundings) (id : String) (g g' : Gateway)
    → g'.approvals ≡ g.approvals
    → MayForward o id g
    → MayForward o id g'
kept_may o id g g' same m = record {
  approval = m.approval;
  found = ap (get id) same ∙ m.found;
  approved = m.approved;
  set = m.set;
  unchanged = m.unchanged;
}

-- If the child answers every call with an error, a request that waits under an approval that may be
-- forwarded ends in the dead letters after exactly as many decisions as it has attempts left. The child
-- was sent the call of the request at each of them, and no other, if the call that is kept in memory for
-- the approval is that of the request.
pub resolve_each-Buried :
    (o : Surroundings) (e : String) (id : String) (now : Instant) (rest : List Instant)
    (p : McpPendingRequest) (g : Gateway)
    → ((call : ChildMcpToolCall) → o.call_tool call ≡ some e)
    → MayForward o id g
    → pending_for_approval id g ≡ some p
    → p.status ≡ McpPendingStatus.waiting_for_approval
    → All (Fits id p) g.pending_calls
    → p.attempts + length (now ∷ rest) ≡ p.max_attempts
    → Buried id p (length (now ∷ rest)) g (resolve_each o id (now ∷ rest) g)
resolve_each-Buried o e id now [] p g fails may there waits fit left =
    let f = decision-Failed o e fails now id p g may there waits fit in
    record {
      pending = fail_forward now e (take_lease now p);
      found = f.after;
      dead = ground (arith, left);
      spent = omega (arith, left);
      sent = f.sent;
    }
resolve_each-Buried o e id now (later ∷ rest) p g fails may there waits fit left =
    let f = decision-Failed o e fails now id p g may there waits fit in
    let g' = (resolve_after_side_channel_decision o now id g).1 in
    let call = requested p in
    let times = repeated (length (later ∷ rest)) call in
    let again =
      resolve_each-Buried o e id later rest (fail_forward now e (take_lease now p)) g' fails
        (kept_may o id g g' f.approvals may) f.after (ground (arith, left)) f.calls
        (omega (arith, left)) in
    record {
      pending = again.pending;
      found = again.found;
      dead = again.dead;
      spent = again.spent;
      sent = again.sent ∙ ap (λ xs. xs ++ times) f.sent ∙ append_assoc g.sent (call ∷ []) times;
    }
