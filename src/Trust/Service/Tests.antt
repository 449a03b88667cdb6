-- ===== src/Trust/Service/Tests.antt =====
-- The trust service at concrete stores.
use aixion_control_tower.Prelude.{
  ℕ, zero, suc, ◌≡◌, ◌≢◌, ◌⊎◌, ◌↔◌, refl, sym, ap, ◌∙◌, false, none, some, [], ◌∷◌, arith,
}
use aixion_control_tower.Prelude.Lists.{length}
use aixion_control_tower.Prelude.Dict.{get}
use aixion_control_tower.Prelude.Text.{codes}
use aixion_control_tower.Approvals.Models.{ApprovalRequest, approval_keyed}
use aixion_control_tower.Trust.Models.{CapabilityLeaseStatus}
use aixion_control_tower.Trust.Leases.{CapabilityLease}
use aixion_control_tower.Trust.Policy.Fixtures.{source_lease}
use aixion_control_tower.Trust.FlightRecorder.Chain.{verify_flight_recorder}
use aixion_control_tower.Trust.Records.{CredentialGrant, CredentialGrantType, CredentialGrantCreate}
use aixion_control_tower.Trust.State.{TrustStore}
use aixion_control_tower.Trust.Service.Issue.{new_lease, issue_capability_lease}
use aixion_control_tower.Trust.Service.Consume.{consume_effective_action}
use aixion_control_tower.Trust.Service.Credentials.{
  issue_credential_grant, CredentialIntrospectionRequest, CredentialIntrospectionResult,
  introspect_credential,
}
use aixion_control_tower.Trust.Service.Covered.{DistinctIds, Sound}
use aixion_control_tower.Trust.Service.Sanction.{Sanctioned}
use aixion_control_tower.Trust.Service.IssueLaws.{
  Signed, Repeated, issue_capability_lease-Sanctioned,
}
use aixion_control_tower.Trust.Service.ConsumeLaws.{answer_again, consume_effective_action_once}
use aixion_control_tower.Trust.Service.Charge.{Paid, consume_effective_action-Paid}
use aixion_control_tower.Trust.Service.Reach.{step, here, issues, grants_credential, Steps-Sound}
use aixion_control_tower.Trust.Service.Introspect.{
  Live, introspect_credential_iff, introspect_credential-Stopped,
}
use aixion_control_tower.Trust.Service.Fixtures.{
  strokes, plain, owner, approved_login, plane, request, used, busy_plane,
}

length-strokes : (n : ℕ) → length (codes (strokes n)) ≡ n
length-strokes zero = refl
length-strokes (suc n) = ap suc (length-strokes n)

plain-DistinctIds : DistinctIds plain
plain-DistinctIds prefix a b e =
    sym (length-strokes a) ∙ ap (λ id. length (codes id)) e ∙ length-strokes b

plane-Sound : Sound plain 5 plane
unfolding verify_flight_recorder
plane-Sound = record { budgets = tt; recorded = refl; event_ids = tt; lease_ids = tt; covered = tt }

issue_capability_lease-Sanctioned_example :
    let lease = new_lease plain 10 0 request approved_login owner in
    let t = (issue_capability_lease plain 10 request owner plane).1 in
    (approval : ApprovalRequest) × (get "approval_1" plane.approvals ≡ some approval)
    × Sanctioned request approval plane
    × (Signed plain 10 request approval lease t ⊎ Repeated plain 10 request approval lease plane t)
unfolding issue_capability_lease
issue_capability_lease-Sanctioned_example =
    issue_capability_lease-Sanctioned plain 10 request owner plane
      (issue_capability_lease plain 10 request owner plane).1
      (new_lease plain 10 0 request approved_login owner) refl

abbrev key_request : CredentialGrantCreate
key_request = record {
  lease_id = (new_lease plain 10 0 request approved_login owner).id;
  grant_type = CredentialGrantType.internal_capability_token;
  audience = "runner";
  subject = "worker";
  scope = "push" ∷ [];
  expires_in_seconds = 60;
}

Steps-Sound_example :
    Sound plain 5
      (issue_credential_grant plain 20 25 key_request owner
        (issue_capability_lease plain 10 request owner plane).1).1
Steps-Sound_example =
    Steps-Sound plain 5 plain-DistinctIds
      (step (issues 10 request owner)
        (step (grants_credential 20 25 key_request owner (omega arith)) here))
      plane-Sound

consume_effective_action_once_example :
    let t = (consume_effective_action plain 10 "action_1" used "worker" busy_plane).1 in
    consume_effective_action plain 20 "action_1" used "worker" t ≡ answer_again plain used used t
unfolding consume_effective_action
consume_effective_action_once_example =
    consume_effective_action_once plain 10 20 "action_1" used used used "worker" "worker" busy_plane
      (consume_effective_action plain 10 "action_1" used "worker" busy_plane).1 refl

consume_effective_action-Paid_example :
    Paid plain 10 "action_1" used used busy_plane
      (consume_effective_action plain 10 "action_1" used "worker" busy_plane).1
unfolding consume_effective_action
consume_effective_action-Paid_example =
    consume_effective_action-Paid plain 10 "action_1" used used "worker" busy_plane
      (consume_effective_action plain 10 "action_1" used "worker" busy_plane).1 refl

abbrev deploy_key : CredentialGrant
deploy_key = record {
  id = "grant_1";
  lease_id = "lease_1";
  grant_type = CredentialGrantType.internal_capability_token;
  audience = "runner";
  subject = "worker";
  scope = "push" ∷ [];
  issued_at = 0;
  expires_at = 500;
  revoked = false;
  revoked_at = none;
  token_hash = "token";
  issued_by_user_id = "owner";
  revoked_by_user_id = none;
  revocation_reason = none;
}

abbrev question : CredentialIntrospectionRequest
question = record { bearer_token = "token"; audience = "runner"; required_scope = "push" ∷ [] }

introspect_credential_iff_example :
    (introspect_credential plain 10 question (record busy_plane { grants = deploy_key ∷ [] })
      ≡ CredentialIntrospectionResult.active deploy_key)
    ↔ Live plain 10 question busy_plane.leases (deploy_key ∷ []) deploy_key
introspect_credential_iff_example =
    introspect_credential_iff plain 10 question (record busy_plane { grants = deploy_key ∷ [] })
      deploy_key

abbrev stopped_lease : CapabilityLease
stopped_lease = record source_lease { id = ""; status = CapabilityLeaseStatus.revoked }

abbrev stopped_plane : TrustStore
stopped_plane = record plane { leases = stopped_lease ∷ []; drawn = 1 }

stopped_plane-Sound : Sound plain 0 stopped_plane
unfolding verify_flight_recorder
stopped_plane-Sound = record {
  budgets = (
    record {
      runtime = omega arith;
      cost = omega arith;
      pull_requests = omega arith;
      retries = omega arith;
    },
    tt,
  );
  recorded = refl;
  event_ids = tt;
  lease_ids = (record { number = 0; below = omega arith; same = refl }, tt);
  covered = tt;
}

introspect_credential-Stopped_example :
    introspect_credential plain 20 question
      (issue_capability_lease plain 10 request owner stopped_plane).1
    ≢ CredentialIntrospectionResult.active (record deploy_key { lease_id = "" })
introspect_credential-Stopped_example =
    introspect_credential-Stopped plain 0 "" 20 question (record deploy_key { lease_id = "" })
      plain-DistinctIds stopped_plane-Sound
      (record { lease = stopped_lease; found = refl; idle = refl })
      (step (issues 10 request owner) here) refl
