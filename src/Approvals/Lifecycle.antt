-- ===== src/Approvals/Lifecycle.antt =====
-- backend/app/approval_lifecycle.py: the legal transitions of an approval and its dashboard bucket.
use aixion_control_tower.Prelude.{Eq, Bool, List, [], ◌∷◌, ◌++◌, ◌==◌, contains, if◌then◌else◌}
use aixion_control_tower.Approvals.Models.{
  ApprovalStatus, DashboardBucket, ApprovalRequest, approval_status_eq, bucket_eq,
}
use aixion_control_tower.Approvals.Models.{
  ApprovalStatus.requested, ApprovalStatus.approved, ApprovalStatus.denied, ApprovalStatus.expired,
  ApprovalStatus.executing, ApprovalStatus.ready_for_pr, ApprovalStatus.failed,
  ApprovalStatus.merged, ApprovalStatus.cancelled, ApprovalStatus.pending_review,
  ApprovalStatus.rejected, ApprovalStatus.revision_requested, ApprovalStatus.blocked,
  ApprovalStatus.applied, ApprovalStatus.tests_running, ApprovalStatus.tests_passed,
  ApprovalStatus.tests_failed,
}

-- `canonical_status`, with `LEGACY_STATUS_MAP`
unfoldable pub canonical_status : ApprovalStatus → ApprovalStatus
canonical_status pending_review = requested
canonical_status rejected = denied
canonical_status applied = executing
canonical_status tests_running = executing
canonical_status tests_failed = failed
canonical_status tests_passed = merged
canonical_status status = status

-- `VALID_TRANSITIONS`
abbrev pub valid_transitions : ApprovalStatus → List ApprovalStatus
valid_transitions requested = approved ∷ denied ∷ expired ∷ cancelled ∷ []
valid_transitions approved = executing ∷ cancelled ∷ []
valid_transitions executing = ready_for_pr ∷ failed ∷ []
valid_transitions ready_for_pr = merged ∷ failed ∷ cancelled ∷ []
valid_transitions failed = approved ∷ cancelled ∷ []
valid_transitions denied = []
valid_transitions expired = []
valid_transitions merged = []
valid_transitions cancelled = []
valid_transitions blocked = cancelled ∷ []
valid_transitions revision_requested = requested ∷ cancelled ∷ []
valid_transitions pending_review = approved ∷ denied ∷ expired ∷ cancelled ∷ []
valid_transitions rejected = []
valid_transitions applied = ready_for_pr ∷ failed ∷ []
valid_transitions tests_running = ready_for_pr ∷ failed ∷ []
valid_transitions tests_passed = merged ∷ []
valid_transitions tests_failed = approved ∷ cancelled ∷ []

unfoldable pub can_transition : ApprovalStatus → ApprovalStatus → Bool
unfolding canonical_status
can_transition previous new =
    contains (canonical_status new) (valid_transitions (canonical_status previous))

-- `DASHBOARD_BUCKETS`
abbrev pub dashboard_buckets : List (DashboardBucket × List ApprovalStatus)
dashboard_buckets =
    (DashboardBucket.action_required, requested ∷ blocked ∷ revision_requested ∷ [])
    ∷ (DashboardBucket.approved_waiting, approved ∷ [])
    ∷ (DashboardBucket.executing, executing ∷ [])
    ∷ (DashboardBucket.ready_for_pr, ready_for_pr ∷ [])
    ∷ (DashboardBucket.failed, failed ∷ [])
    ∷ (DashboardBucket.completed, merged ∷ [])
    ∷ (DashboardBucket.history, denied ∷ expired ∷ cancelled ∷ [])
    ∷ []

-- The loop of `dashboard_bucket_for`.
abbrev pub find_bucket :
    ApprovalStatus → List (DashboardBucket × List ApprovalStatus) → DashboardBucket
find_bucket canonical [] = DashboardBucket.history
find_bucket canonical ((bucket, statuses) ∷ rest) =
    let later = find_bucket canonical rest in if contains canonical statuses then bucket else later

unfoldable pub dashboard_bucket_for : ApprovalStatus → DashboardBucket
unfolding canonical_status
dashboard_bucket_for status = find_bucket (canonical_status status) dashboard_buckets

abbrev pub Groups : Type 0
Groups = List (DashboardBucket × List ApprovalRequest)

-- `{bucket: [] for bucket in DASHBOARD_BUCKETS}`
abbrev pub empty_groups : List (DashboardBucket × List ApprovalStatus) → Groups
empty_groups [] = []
empty_groups ((bucket, statuses) ∷ rest) = (bucket, []) ∷ empty_groups rest

module _ {B A : Type 0} ⦃e : Eq B⦄ where
  -- `grouped[bucket].append(approval)`
  abbrev pub append_to : B → A → List (B × List A) → List (B × List A)
  append_to bucket approval [] = []
  append_to bucket approval ((b, group) ∷ rest) =
      let later = append_to bucket approval rest in
      if b == bucket then (b, group ++ approval ∷ []) ∷ rest else (b, group) ∷ later

  -- `grouped[bucket]`
  abbrev pub group_of : B → List (B × List A) → List A
  group_of bucket [] = []
  group_of bucket ((b, group) ∷ rest) =
      let later = group_of bucket rest in if b == bucket then group else later

-- The loop of `grouped_approvals`.
abbrev pub group_from : Groups → List ApprovalRequest → Groups
group_from groups [] = groups
group_from groups (approval ∷ rest) =
    group_from (append_to (dashboard_bucket_for approval.status) approval groups) rest

unfoldable pub grouped_approvals : List ApprovalRequest → Groups
grouped_approvals approvals = group_from (empty_groups dashboard_buckets) approvals
