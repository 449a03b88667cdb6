-- ===== src/Trust/Service/Issue.antt =====
-- The issue of a capability lease (trust_service.py: _validate_scope_against_approval and
-- issue_capability_lease).
use aixion_control_tower.Prelude.{
  ℕ, ◌+◌, ◌*◌, Bool, false, ◌&&◌, not, Option, none, some, List, [], ◌∷◌, String, map, ◌==◌, ◌!=◌,
  contains, is_set, or_empty, string_eq, option_eq, ltb, if◌then◌else◌,
}
use aixion_control_tower.Prelude.Lists.{any, all, keep, length, find_first}
use aixion_control_tower.Prelude.Exec.{Exec, Error, ok, err, conflict, not_found}
use aixion_control_tower.Prelude.Dict.{get, put}
use aixion_control_tower.Prelude.Text.{Text, codes, strip, same, is_empty}
use aixion_control_tower.AgentRun.Models.{Instant, second}
use aixion_control_tower.Approvals.Models.{
  ApprovalRequest, ApprovalStatus, approval_status_eq, approval_keyed,
}
use aixion_control_tower.Tasks.Models.{AgentTask}
use aixion_control_tower.Trust.Models.{TrustEventType, CapabilityLeaseStatus, lease_status_eq}
use aixion_control_tower.Trust.Leases.{CapabilityScope, CapabilityLease, lease_keyed}
use aixion_control_tower.Trust.Policy.Paths.{forward_slashes, rstrip_code}
use aixion_control_tower.Trust.Policy.Evaluate.{lease_receipt_payload}
use aixion_control_tower.Trust.Records.{AuthUser, CapabilityLeaseCreate}
use aixion_control_tower.Trust.Payload.{
  PayloadValue.text, PayloadValue.optional, PayloadValue.number, PayloadValue.provider_value,
  PayloadValue.mode_value,
}
use aixion_control_tower.Trust.State.{
  Outside, TrustStore, Guard, first_raised, trust_event, record_event,
}
use aixion_control_tower.Trust.Service.Reviews.{approval_reviewer_ids, has_denial}

-- `_linked_task_for_approval`
abbrev pub linked_task_for_approval : String → List AgentTask → Option AgentTask
linked_task_for_approval approval_id =
    find_first (λ task. task.approval_request_id == some approval_id)

-- `value in values`
abbrev pub is_among : Text → List Text → Bool
is_among value = any (same value)

abbrev pub approved_paths : ApprovalRequest → List Text
approved_paths approval = map (λ file. forward_slashes (strip (codes file.path))) approval.files

abbrev pub requested_path : String → Text
requested_path item = rstrip_code 47 (forward_slashes (strip (codes item)))

abbrev pub approved_commands : ApprovalRequest → List Text
approved_commands approval =
    keep (λ command. not (is_empty command)) (map (λ item. strip (codes item)) approval.test_plan)

-- `_validate_scope_against_approval`, given the linked task
abbrev pub scope_guards : CapabilityScope → ApprovalRequest → AgentTask → List Guard
scope_guards scope approval task =
    (some scope.repository != task.repository, conflict)
    ∷ (scope.branch != approval.target_branch, conflict)
    ∷ (some scope.branch != task.branch_preference, conflict)
    ∷ (
      not (
          all (λ item. is_among (requested_path item) (approved_paths approval))
            scope.allowed_path_prefixes),
      conflict,
    )
    ∷ (
      not (
          all (λ item. is_among (strip (codes item)) (approved_commands approval))
            scope.allowed_commands),
      conflict,
    )
    ∷ (scope.allow_auto_merge, conflict)
    ∷ []

unfoldable pub validate_scope_against_approval :
    CapabilityScope → ApprovalRequest → List AgentTask → Option Error
validate_scope_against_approval scope approval tasks =
    elim (linked_task_for_approval approval.id tasks) [
      | none ↦ some conflict
      | some task ↦ first_raised (scope_guards scope approval task)
    ]

-- `approval.created_by_user_id in reviewers`
abbrev pub is_reviewer : Option String → List String → Bool
is_reviewer none reviewers = false
is_reviewer (some id) reviewers = contains id reviewers

-- The conditions of `issue_capability_lease` before the scope is looked at.
abbrev pub approval_guards : CapabilityLeaseCreate → ApprovalRequest → TrustStore → List Guard
approval_guards payload approval store =
    (approval.status != ApprovalStatus.approved, conflict)
    ∷ (not (is_set approval.approved_payload_hash), conflict)
    ∷ (
      is_set payload.agent_id && not (contains (or_empty payload.agent_id) store.external_agents),
      not_found,
    )
    ∷ (
      has_denial approval.id (or_empty approval.approved_payload_hash) store.attestations,
      conflict,
    )
    ∷ []

-- The conditions on the reviewers.
abbrev pub reviewer_guards : CapabilityLeaseCreate → ApprovalRequest → List String → List Guard
reviewer_guards payload approval reviewers =
    (payload.prevent_self_approval && is_reviewer approval.created_by_user_id reviewers, conflict)
    ∷ (ltb (length reviewers) payload.required_reviewer_count, conflict)
    ∷ []

abbrev pub or_else : Option Error → Option Error → Option Error
or_else none later = later
or_else (some error) later = some error

-- Why `issue_capability_lease` refuses, up to the search for an active lease.
unfoldable pub issue_refusal : CapabilityLeaseCreate → ApprovalRequest → TrustStore → Option Error
unfolding validate_scope_against_approval approval_reviewer_ids
issue_refusal payload approval store =
    or_else (first_raised (approval_guards payload approval store)) (
      or_else (validate_scope_against_approval payload.scope approval store.tasks) (
        first_raised (
          reviewer_guards payload approval (
            approval_reviewer_ids approval (or_empty approval.approved_payload_hash)
              store.attestations))))

abbrev pub is_active_for : Instant → String → Option String → CapabilityLease → Bool
is_active_for now approval_id agent_id lease =
    (lease.approval_request_id == approval_id)
    && (lease.agent_id == agent_id)
    && (lease.status == CapabilityLeaseStatus.active)
    && ltb now lease.expires_at

-- The new lease, signed, under the id and the nonce of number `n`.
abbrev pub new_lease :
    Outside → Instant → ℕ → CapabilityLeaseCreate → ApprovalRequest → AuthUser → CapabilityLease
new_lease o now n payload approval user =
    let pending : CapabilityLease = record {
      id = o.new_id "lease" n;
      approval_request_id = approval.id;
      approved_payload_hash = or_empty approval.approved_payload_hash;
      agent_id = payload.agent_id;
      provider = payload.provider;
      mode = payload.mode;
      scope = record payload.scope { request_fingerprint = some (o.request_hash payload) };
      issued_by_user_id = user.id;
      required_reviewer_count = payload.required_reviewer_count;
      prevent_self_approval = payload.prevent_self_approval;
      status = CapabilityLeaseStatus.active;
      issued_at = now;
      expires_at = now + payload.expires_in_seconds * second;
      revoked_at = none;
      revoked_by_user_id = none;
      revocation_reason = "";
      receipt_nonce = o.new_nonce n;
      receipt_signature = "pending";
      consumed_pull_requests = 0;
      consumed_retries = 0;
      consumed_runtime_seconds = 0;
      consumed_cost_usd = 0;
      created_at = now;
      updated_at = now;
    } in
    record pending { receipt_signature = o.sign_receipt (lease_receipt_payload pending) }

abbrev pub add_lease :
    Outside
    → Instant
    → CapabilityLeaseCreate
    → ApprovalRequest
    → AuthUser
    → Exec TrustStore CapabilityLease
add_lease o now payload approval user store =
    let lease = new_lease o now store.drawn payload approval user in
    (
      ok lease,
      record_event o now
          (trust_event TrustEventType.lease_issued "capability_lease" lease.id user.email
            payload.scope.correlation_id
            (("approval_request_id", text approval.id)
              ∷ ("provider", provider_value lease.provider)
              ∷ ("agent_id", optional lease.agent_id)
              ∷ ("mode", mode_value lease.mode)
              ∷ ("repository", text payload.scope.repository)
              ∷ ("branch", text payload.scope.branch)
              ∷ ("expires_at", number lease.expires_at)
              ∷ ("required_reviewer_count", number lease.required_reviewer_count)
              ∷ []))
          (record store { leases = put lease store.leases; drawn = store.drawn + 1 }),
    )

-- The answer when a lease is active already, or none is.
abbrev pub issue_unless_active :
    Option CapabilityLease
    → Outside
    → Instant
    → CapabilityLeaseCreate
    → ApprovalRequest
    → AuthUser
    → Exec TrustStore CapabilityLease
issue_unless_active none o now payload approval user store =
    add_lease o now payload approval user store
issue_unless_active (some active) o now payload approval user store =
    if active.scope.request_fingerprint == some (o.request_hash payload)
    then (ok active, store)
    else (err conflict, store)

abbrev pub issue_unless_refused :
    Option Error
    → Outside
    → Instant
    → CapabilityLeaseCreate
    → ApprovalRequest
    → AuthUser
    → Exec TrustStore CapabilityLease
issue_unless_refused (some error) o now payload approval user store = (err error, store)
issue_unless_refused none o now payload approval user store =
    issue_unless_active (find_first (is_active_for now approval.id payload.agent_id) store.leases) o
      now payload approval user store

abbrev pub issue_for :
    Option ApprovalRequest
    → Outside
    → Instant
    → CapabilityLeaseCreate
    → AuthUser
    → Exec TrustStore CapabilityLease
issue_for none o now payload user store = (err not_found, store)
issue_for (some approval) o now payload user store =
    issue_unless_refused (issue_refusal payload approval store) o now payload approval user store

-- `issue_capability_lease`
unfoldable pub issue_capability_lease :
    Outside → Instant → CapabilityLeaseCreate → AuthUser → Exec TrustStore CapabilityLease
unfolding issue_refusal record_event
issue_capability_lease o now payload user store =
    issue_for (get payload.approval_request_id store.approvals) o now payload user store
