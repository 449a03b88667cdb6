-- ===== src/Mcp/Gateway.antt =====
-- backend/app/mcp_gateway.py: a decision on an approval, with what it writes to the pending request. It
-- reads the clock once.
use aixion_control_tower.Prelude.{
  ℕ, ◌+◌, ◌*◌, Bool, true, false, ◌&&◌, not, Option, none, some, List, [], ◌∷◌, ◌++◌, String, ◌==◌,
  ◌!=◌, contains, is_set, find_first, leb, ltb, string_eq, option_eq, if◌then◌else◌,
}
use aixion_control_tower.Prelude.Dict.{get}
use aixion_control_tower.AgentRun.Models.{Instant, second}
use aixion_control_tower.Approvals.Models.{
  ApprovalRequest, ApprovalStatus, approval_status_eq, approval_keyed,
}
use aixion_control_tower.Approvals.Integrity.{approval_payload_snapshot}
use aixion_control_tower.Mcp.Models.{
  ChildMcpToolCall, Gateway, Held, McpDecision, McpPendingRequest, McpPendingStatus, PendingCall,
  Surroundings, ToolCall, forwarded_call, held, mcp_pending_keyed, mcp_status_eq,
  pending_call_keyed,
}

-- `FINAL_PENDING_STATUSES`
abbrev pub final_pending_statuses : List McpPendingStatus
final_pending_statuses =
    McpPendingStatus.forwarded ∷ McpPendingStatus.blocked_by_decision ∷ McpPendingStatus.orphaned
    ∷ McpPendingStatus.dead_letter ∷ []

abbrev pub is_final : McpPendingStatus → Bool
is_final status = contains status final_pending_statuses

abbrev pub is_for : String → McpPendingRequest → Bool
is_for approval_id pending = pending.approval_request_id == approval_id

-- `_pending_for_approval`
abbrev pub pending_for_approval : String → Gateway → Option McpPendingRequest
pending_for_approval approval_id g = find_first (is_for approval_id) g.pending

-- A write to the object that `_pending_for_approval` finds.
abbrev pub update_first : {A : Type 0} → (A → Bool) → (A → A) → List A → List A
update_first p f [] = []
update_first p f (x ∷ xs) = let rest = update_first p f xs in if p x then f x ∷ xs else x ∷ rest

abbrev pub update_pending : String → (McpPendingRequest → McpPendingRequest) → Gateway → Gateway
update_pending approval_id f g = record g {
  pending = update_first (is_for approval_id) f g.pending;
}

abbrev pub set_status : Instant → McpPendingStatus → McpPendingRequest → McpPendingRequest
set_status now status pending =
    if is_final pending.status
    then pending
    else if is_final status
    then record pending {
      status = status;
      lease_owner = none;
      lease_expires_at = none;
      updated_at = now;
    }
    else record pending { status = status; updated_at = now }

-- `_mark_pending_status`
abbrev pub mark_pending_status : Instant → String → McpPendingStatus → Gateway → Gateway
mark_pending_status now approval_id status = update_pending approval_id (set_status now status)

abbrev pub is_lease_live : Instant → McpPendingRequest → Bool
is_lease_live now pending = elim pending.lease_expires_at [ none ↦ false | some t ↦ ltb now t ]

-- Whether `_acquire_pending_lease` succeeds, and its writes.
abbrev pub can_lease : Instant → McpPendingRequest → Bool
can_lease now pending =
    not ((pending.status == McpPendingStatus.forwarding) && is_lease_live now pending)
    && contains pending.status
        (McpPendingStatus.waiting_for_approval ∷ McpPendingStatus.forwarding ∷ [])

-- `LEASE_SECONDS`
abbrev pub lease_seconds : ℕ
lease_seconds = 30

abbrev pub take_lease : Instant → McpPendingRequest → McpPendingRequest
take_lease now pending = record pending {
  status = McpPendingStatus.forwarding;
  attempts = pending.attempts + 1;
  lease_owner = some "mcp-gateway-resolver";
  lease_expires_at = some (now + lease_seconds * second);
  updated_at = now;
}

-- The writes of `_handle_forward_failure`.
abbrev pub fail_forward : Instant → String → McpPendingRequest → McpPendingRequest
fail_forward now error pending = record pending {
  status =
      if leb pending.max_attempts pending.attempts
      then McpPendingStatus.dead_letter
      else McpPendingStatus.waiting_for_approval;
  last_error = some error;
  lease_owner = none;
  lease_expires_at = none;
  updated_at = now;
}

abbrev pub is_dead_letter : Option McpPendingRequest → Bool
is_dead_letter none = false
is_dead_letter (some pending) = pending.status == McpPendingStatus.dead_letter

abbrev pub handle_forward_failure : Instant → String → String → Gateway → Gateway
handle_forward_failure now approval_id error g =
    let failed = update_pending approval_id (fail_forward now error) g in
    record failed {
      audits =
          failed.audits
          ++ (if is_dead_letter (pending_for_approval approval_id failed)
              then "MCP_PENDING_DEAD_LETTERED"
              else "MCP_PENDING_FORWARD_FAILED")
            ∷ [];
    }

-- `_pending_calls.pop(approval_id, None)`
abbrev pub drop_call : String → List PendingCall → List PendingCall
drop_call approval_id [] = []
drop_call approval_id (c ∷ rest) =
    let later = drop_call approval_id rest in
    if c.approval_request_id == approval_id then rest else c ∷ later

abbrev pub call_of : McpPendingRequest → ToolCall
call_of pending = record {
  server_name = pending.server_name;
  tool_name = pending.tool_name;
  arguments = pending.arguments;
  session_id = pending.session_id;
  requested_by = pending.requested_by;
  mutating = some true;
}

-- `_recover_pending_call`
abbrev pub recover_pending_call : Option McpPendingRequest → Option ToolCall
recover_pending_call none = none
recover_pending_call (some pending) =
    if pending.status != McpPendingStatus.waiting_for_approval then none else some (call_of pending)

abbrev pub pop_or_recover : Option PendingCall → Option McpPendingRequest → Option ToolCall
pop_or_recover (some entry) pending = some entry.call
pop_or_recover none pending = recover_pending_call pending

-- The envelope that `_forward` makes of a call.
abbrev pub child_call : ToolCall → ChildMcpToolCall
child_call call = record {
  server_name = call.server_name;
  tool_name = call.tool_name;
  arguments = call.arguments;
  session_id = call.session_id;
  requested_by = call.requested_by;
}

-- `_forward` after the lease, and what follows its answer.
abbrev pub after_answer : Option String → Instant → String → Gateway → McpDecision × Gateway
after_answer (some error) now approval_id g =
    (held Held.forward_failed, handle_forward_failure now approval_id error g)
after_answer none now approval_id g =
    let marked = mark_pending_status now approval_id McpPendingStatus.forwarded g in
    (forwarded_call, record marked { audits = marked.audits ++ "FORWARDED_AFTER_APPROVAL" ∷ [] })

abbrev pub forward : Surroundings → Instant → String → ToolCall → Gateway → McpDecision × Gateway
forward o now approval_id call g =
    after_answer (o.call_tool (child_call call)) now approval_id
      (record g { sent = g.sent ++ child_call call ∷ [] })

abbrev pub lease_and_forward :
    Option McpPendingRequest
    → Surroundings
    → Instant
    → String
    → ToolCall
    → Gateway
    → McpDecision × Gateway
lease_and_forward none o now approval_id call g = forward o now approval_id call g
lease_and_forward (some pending) o now approval_id call g =
    if not (can_lease now pending)
    then (held Held.already_leased, g)
    else forward o now approval_id call (update_pending approval_id (take_lease now) g)

abbrev pub resolve_call :
    Option ToolCall → Surroundings → Instant → String → Gateway → McpDecision × Gateway
resolve_call none o now approval_id g =
    (held Held.no_call, mark_pending_status now approval_id McpPendingStatus.orphaned g)
resolve_call (some call) o now approval_id g =
    lease_and_forward (pending_for_approval approval_id g) o now approval_id call g

abbrev pub popped : String → Gateway → Gateway
popped approval_id g = record g { pending_calls = drop_call approval_id g.pending_calls }

abbrev pub resolve_approval :
    Option ApprovalRequest → Surroundings → Instant → String → Gateway → McpDecision × Gateway
resolve_approval none o now approval_id g =
    (held Held.no_approval, mark_pending_status now approval_id McpPendingStatus.orphaned g)
resolve_approval (some approval) o now approval_id g =
    if approval.status != ApprovalStatus.approved
    then (
      held Held.not_approved,
      mark_pending_status now approval_id McpPendingStatus.blocked_by_decision g,
    )
    else if not (is_set approval.approved_payload_hash)
    then (held Held.hash_missing, g)
    else if some (o.payload_hash (approval_payload_snapshot approval))
        != approval.approved_payload_hash
    then (held Held.payload_changed, g)
    else resolve_call
        (pop_or_recover (get approval_id g.pending_calls) (pending_for_approval approval_id g)) o
        now approval_id (popped approval_id g)

-- The writes to a pending request whose forwarding lease has run out.
abbrev pub reopen : Instant → McpPendingRequest → McpPendingRequest
reopen now pending = record pending {
  status = McpPendingStatus.waiting_for_approval;
  lease_owner = none;
  lease_expires_at = none;
  updated_at = now;
}

abbrev pub resolve_pending :
    Option McpPendingRequest → Surroundings → Instant → String → Gateway → McpDecision × Gateway
resolve_pending none o now approval_id g =
    resolve_approval (get approval_id g.approvals) o now approval_id g
resolve_pending (some pending) o now approval_id g =
    if is_final pending.status
    then (held Held.already_final, popped approval_id g)
    else if pending.status != McpPendingStatus.forwarding
    then resolve_approval (get approval_id g.approvals) o now approval_id g
    else if is_lease_live now pending
    then (held Held.already_leased, g)
    else resolve_approval (get approval_id g.approvals) o now approval_id
        (update_pending approval_id (reopen now) g)

-- `resolve_after_side_channel_decision`, after the wait
unfoldable pub resolve_after_side_channel_decision :
    Surroundings → Instant → String → Gateway → McpDecision × Gateway
resolve_after_side_channel_decision o now approval_id g =
    resolve_pending (pending_for_approval approval_id g) o now approval_id g
