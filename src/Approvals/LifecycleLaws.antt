-- ===== src/Approvals/LifecycleLaws.antt =====
-- Transitions and dashboard groups of approvals (approval_lifecycle.py).
use aixion_control_tower.Prelude.{
  Bool, true, false, ◌≡◌, ◌↔◌, refl, ap, sym, ◌∙◌, List, [], ◌∷◌, ◌++◌, arith, Eq, eq_iff, ◌==◌,
  keep, if◌then◌else◌, Bool-cases, inl, inr, ◌||◌,
}
use mathlib.Core.List.{append-nil, append_assoc}
use aixion_control_tower.Approvals.Models.{
  ApprovalStatus, DashboardBucket, ApprovalRequest, approval_status_eq, bucket_eq,
}
use aixion_control_tower.Approvals.Lifecycle.{
  can_transition, dashboard_buckets, dashboard_bucket_for, Groups, empty_groups, append_to,
  group_from, grouped_approvals, group_of,
}

-- The dashboard counts the approval as closed.
abbrev pub is_closed : ApprovalStatus → Bool
unfolding dashboard_bucket_for
is_closed s =
    (dashboard_bucket_for s == DashboardBucket.completed)
    || (dashboard_bucket_for s == DashboardBucket.history)

closed-final :
    (previous new : ApprovalStatus)
    → is_closed previous ≡ true
    → can_transition previous new ≡ false
unfolding can_transition is_closed dashboard_bucket_for
closed-final previous new h = ground arith

-- A status that an open one may go to.
open_way :
    (previous : ApprovalStatus)
    → is_closed previous ≡ false
    → (new : ApprovalStatus) × (can_transition previous new ≡ true)
unfolding can_transition is_closed dashboard_bucket_for
open_way ApprovalStatus.requested h = (ApprovalStatus.approved, refl)
open_way ApprovalStatus.approved h = (ApprovalStatus.executing, refl)
open_way ApprovalStatus.executing h = (ApprovalStatus.failed, refl)
open_way ApprovalStatus.ready_for_pr h = (ApprovalStatus.merged, refl)
open_way ApprovalStatus.failed h = (ApprovalStatus.approved, refl)
open_way ApprovalStatus.blocked h = (ApprovalStatus.cancelled, refl)
open_way ApprovalStatus.revision_requested h = (ApprovalStatus.requested, refl)
open_way ApprovalStatus.pending_review h = (ApprovalStatus.approved, refl)
open_way ApprovalStatus.applied h = (ApprovalStatus.failed, refl)
open_way ApprovalStatus.tests_running h = (ApprovalStatus.failed, refl)
open_way ApprovalStatus.tests_failed h = (ApprovalStatus.approved, refl)
open_way s h = ground arith

-- The dashboard shows a status as completed or history exactly when no transition leaves it, the
-- legacy statuses included.
pub can_transition_closed_iff :
    (previous : ApprovalStatus)
    → (is_closed previous ≡ true) ↔ ((new : ApprovalStatus) → can_transition previous new ≡ false)
can_transition_closed_iff previous = (
  λ h new. closed-final previous new h,
  λ final. elim (Bool-cases (is_closed previous)) [
    | inl closed ↦ closed
    | inr is_open ↦ let (new, way) = open_way previous is_open in ground (arith, way, final new)
  ],
)

module _ {B A : Type 0} ⦃e : Eq B⦄ where
  -- The groups have one for the bucket.
  abbrev has_group : B → List (B × List A) → Bool
  has_group bucket [] = false
  has_group bucket ((b, group) ∷ rest) = b == bucket || has_group bucket rest

  append_to-has_group :
      (bucket c : B) (a : A) (g : List (B × List A))
      → has_group bucket (append_to c a g) ≡ has_group bucket g
  append_to-has_group bucket c a [] = refl
  append_to-has_group bucket c a ((b, group) ∷ rest) =
      ground (arith, append_to-has_group bucket c a rest)

  group_of-append_to :
      (bucket c : B) (a : A) (g : List (B × List A))
      → has_group bucket g ≡ true
      → group_of bucket (append_to c a g)
        ≡ (if c == bucket then group_of bucket g ++ a ∷ [] else group_of bucket g)
  group_of-append_to bucket c a [] h = ground arith
  group_of-append_to bucket c a ((b, group) ∷ rest) h =
      ground
        (arith, group_of-append_to bucket c a rest, eq_iff b bucket, eq_iff b c, eq_iff c bucket)

-- The approval belongs to the bucket.
abbrev pub in_bucket : DashboardBucket → ApprovalRequest → Bool
in_bucket bucket a = dashboard_bucket_for a.status == bucket

group_from_lem :
    (bucket : DashboardBucket) (g : Groups) (xs : List ApprovalRequest)
    → has_group bucket g ≡ true
    → group_of bucket (group_from g xs) ≡ group_of bucket g ++ keep (in_bucket bucket) xs
group_from_lem bucket g [] h = sym (append-nil (group_of bucket g))
group_from_lem bucket g (a ∷ xs) h =
    let c = dashboard_bucket_for a.status in
    let later = group_from_lem bucket (append_to c a g) xs (append_to-has_group bucket c a g ∙ h) in
    let here = group_of-append_to bucket c a g h in
    elim (Bool-cases (c == bucket)) [
      | inl same ↦ rw same (
          later
          ∙ ap (λ l. l ++ keep (in_bucket bucket) xs) (rw same at here)
          ∙ append_assoc (group_of bucket g) (a ∷ []) (keep (in_bucket bucket) xs))
      | inr other ↦ rw other (later ∙ ap (λ l. l ++ keep (in_bucket bucket) xs) (rw other at here))
    ]

every_group : (bucket : DashboardBucket) → has_group bucket (empty_groups dashboard_buckets) ≡ true
every_group bucket = ground arith

nothing_yet : (bucket : DashboardBucket) → group_of bucket (empty_groups dashboard_buckets) ≡ []
nothing_yet bucket = ground arith

-- Each group of the dashboard holds exactly the approvals whose status belongs to its bucket, in
-- the order in which they came.
pub grouped_approvals_lem :
    (bucket : DashboardBucket) (approvals : List ApprovalRequest)
    → group_of bucket (grouped_approvals approvals) ≡ keep (in_bucket bucket) approvals
unfolding grouped_approvals
grouped_approvals_lem bucket approvals =
    group_from_lem bucket (empty_groups dashboard_buckets) approvals (every_group bucket)
    ∙ ap (λ l. l ++ keep (in_bucket bucket) approvals) (nothing_yet bucket)
