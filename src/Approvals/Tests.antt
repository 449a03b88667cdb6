-- ===== src/Approvals/Tests.antt =====
-- Approvals at concrete inputs.
use aixion_control_tower.Prelude.{true, false, ◌≡◌, ◌↔◌, List, [], ◌∷◌, keep}
use aixion_control_tower.Approvals.Models.{
  ApprovalStatus, DashboardBucket, ApprovalRequest, bucket_eq,
}
use aixion_control_tower.Approvals.Lifecycle.{can_transition, grouped_approvals, group_of}
use aixion_control_tower.Approvals.LifecycleLaws.{
  is_closed, can_transition_closed_iff, in_bucket, grouped_approvals_lem,
}
use aixion_control_tower.Approvals.Fixtures.{login_approval}

can_transition_closed_iff_example :
    (is_closed ApprovalStatus.tests_passed ≡ true)
    ↔ ((new : ApprovalStatus) → can_transition ApprovalStatus.tests_passed new ≡ false)
can_transition_closed_iff_example = can_transition_closed_iff ApprovalStatus.tests_passed

abbrev inbox : List ApprovalRequest
inbox =
    login_approval
    ∷ record login_approval { id = "approval_2"; status = ApprovalStatus.merged }
    ∷ record login_approval { id = "approval_3"; status = ApprovalStatus.pending_review }
    ∷ []

grouped_approvals_lem_example :
    group_of DashboardBucket.action_required (grouped_approvals inbox)
    ≡ keep (in_bucket DashboardBucket.action_required) inbox
grouped_approvals_lem_example = grouped_approvals_lem DashboardBucket.action_required inbox
