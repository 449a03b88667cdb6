-- ===== src/Trust/Service/Reviews.antt =====
-- Reviewers' attestations (trust_service.py: _approval_reviewer_ids, _has_denial and
-- record_reviewer_attestation).
use aixion_control_tower.Prelude.{
  ◌+◌, Bool, ◌&&◌, not, Option, none, some, List, [], ◌∷◌, String, ◌==◌, ◌!=◌, contains, is_set,
  or_empty, string_eq, option_eq, if◌then◌else◌,
}
use aixion_control_tower.Prelude.Lists.{any, find_first}
use aixion_control_tower.Prelude.Exec.{Exec, ok, err, conflict, not_found}
use aixion_control_tower.Prelude.Dict.{get, put}
use aixion_control_tower.AgentRun.Models.{Instant}
use aixion_control_tower.Approvals.Models.{ApprovalRequest, approval_keyed}
use aixion_control_tower.Trust.Models.{TrustEventType}
use aixion_control_tower.Trust.Records.{
  AuthUser, AttestationMaterial, ReviewerAttestation, ReviewerAttestationCreate,
  ReviewerAttestationDecision, attestation_decision_eq, attestation_keyed,
}
use aixion_control_tower.Trust.Payload.{
  PayloadValue.text, PayloadValue.attestation_value, PayloadValue.role_value,
}
use aixion_control_tower.Trust.State.{Outside, TrustStore, trust_event, record_event}

-- `set.add`
abbrev pub add_distinct : String → List String → List String
add_distinct x xs = if contains x xs then xs else x ∷ xs

abbrev pub is_about : String → String → ReviewerAttestationDecision → ReviewerAttestation → Bool
is_about approval_id payload_hash decision attestation =
    (attestation.material.approval_request_id == approval_id)
    && (attestation.material.approval_payload_hash == payload_hash)
    && (attestation.material.decision == decision)

-- The loop of `_approval_reviewer_ids`.
abbrev pub add_reviewers : String → String → List ReviewerAttestation → List String → List String
add_reviewers approval_id payload_hash [] ids = ids
add_reviewers approval_id payload_hash (attestation ∷ rest) ids =
    add_reviewers approval_id payload_hash rest (
      if is_about approval_id payload_hash ReviewerAttestationDecision.approve attestation
      then add_distinct attestation.material.reviewer_user_id ids
      else ids)

-- `_approval_reviewer_ids`
unfoldable pub approval_reviewer_ids :
    ApprovalRequest → String → List ReviewerAttestation → List String
approval_reviewer_ids approval payload_hash attestations =
    add_reviewers approval.id payload_hash attestations (
      if is_set approval.approved_by_user_id
      then or_empty approval.approved_by_user_id ∷ []
      else [])

-- `_has_denial`
abbrev pub has_denial : String → String → List ReviewerAttestation → Bool
has_denial approval_id payload_hash attestations =
    any (is_about approval_id payload_hash ReviewerAttestationDecision.deny) attestations

abbrev pub is_by : String → String → String → ReviewerAttestation → Bool
is_by approval_id user_id payload_hash attestation =
    (attestation.material.approval_request_id == approval_id)
    && (attestation.material.reviewer_user_id == user_id)
    && (attestation.material.approval_payload_hash == payload_hash)

-- A new attestation: stored, and told to the flight recorder.
abbrev pub add_attestation :
    Outside → Instant → AuthUser → AttestationMaterial → Exec TrustStore ReviewerAttestation
add_attestation o now user material store =
    let attestation : ReviewerAttestation = record {
      id = o.new_id "attestation" store.drawn;
      material = material;
      signature = o.sign_attestation material;
      created_at = now;
    } in
    (
      ok attestation,
      record_event o now
          (trust_event TrustEventType.attestation_recorded "approval_request"
            material.approval_request_id user.email none
            (("attestation_id", text attestation.id)
              ∷ ("decision", attestation_value material.decision)
              ∷ ("reviewer_role", role_value material.reviewer_role)
              ∷ ("approval_payload_hash", text material.approval_payload_hash)
              ∷ []))
          (record store {
            attestations = put attestation store.attestations;
            drawn = store.drawn + 1;
          }),
    )

-- The answer to an attestation of a payload on which the reviewer has spoken before, or not.
abbrev pub attest :
    Outside
    → Instant
    → AuthUser
    → AttestationMaterial
    → Option ReviewerAttestation
    → Exec TrustStore ReviewerAttestation
attest o now user material none store = add_attestation o now user material store
attest o now user material (some existing) store =
    if (existing.material.decision != material.decision)
    then (err conflict, store)
    else if existing.material.reason != material.reason
    then (err conflict, store)
    else (ok existing, store)

-- What the reviewer signs.
abbrev pub attestation_material :
    ApprovalRequest → ReviewerAttestationCreate → AuthUser → AttestationMaterial
attestation_material approval payload user = record {
  approval_request_id = approval.id;
  approval_payload_hash = or_empty approval.approved_payload_hash;
  reviewer_user_id = user.id;
  reviewer_role = user.role;
  decision = payload.decision;
  reason = payload.reason;
}

abbrev pub attest_on :
    Option ApprovalRequest
    → Outside
    → Instant
    → ReviewerAttestationCreate
    → AuthUser
    → Exec TrustStore ReviewerAttestation
attest_on none o now payload user store = (err not_found, store)
attest_on (some approval) o now payload user store =
    if not (is_set approval.approved_payload_hash)
    then (err conflict, store)
    else if approval.created_by_user_id == some user.id
    then (err conflict, store)
    else attest o now user (attestation_material approval payload user)
        (find_first (is_by approval.id user.id (or_empty approval.approved_payload_hash))
          store.attestations)
        store

-- `record_reviewer_attestation`
unfoldable pub record_reviewer_attestation :
    Outside → Instant → ReviewerAttestationCreate → AuthUser → Exec TrustStore ReviewerAttestation
unfolding record_event
record_reviewer_attestation o now payload user store =
    attest_on (get payload.approval_request_id store.approvals) o now payload user store
