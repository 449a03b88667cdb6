-- ===== src/Trust/Service/Sanction.antt =====
-- What the conditions of issue_capability_lease (trust_service.py) ask of an approval.
use aixion_control_tower.Prelude.{
  ◌≤◌, ◌≡◌, refl, true, false, ◌&&◌, Option, none, some, List, [], ◌∷◌, String, arith, inl, inr,
  contains, or_empty, is_set, eq_iff, string_eq, option_eq, Bool-cases, either_branch, Option-cases,
}
use aixion_control_tower.Prelude.Lists.{all, length}
use aixion_control_tower.Prelude.Exec.{Error}
use aixion_control_tower.Prelude.Text.{codes, strip}
use aixion_control_tower.Approvals.Models.{
  ApprovalRequest, ApprovalStatus, approval_status_eq, approval_keyed,
}
use aixion_control_tower.Tasks.Models.{AgentTask}
use aixion_control_tower.Trust.Models.{lease_status_eq}
use aixion_control_tower.Trust.Leases.{CapabilityScope, lease_keyed}
use aixion_control_tower.Trust.Records.{CapabilityLeaseCreate, ReviewerAttestation}
use aixion_control_tower.Trust.State.{TrustStore, first_raised}
use aixion_control_tower.Trust.Service.Reviews.{
  add_distinct, add_reviewers, approval_reviewer_ids, has_denial,
}
use aixion_control_tower.Trust.Service.Issue.{
  linked_task_for_approval, is_among, approved_paths, requested_path, approved_commands,
  scope_guards, validate_scope_against_approval, is_reviewer, approval_guards, reviewer_guards,
  or_else, issue_refusal,
}
use aixion_control_tower.Trust.Service.Writes.{first_raised-none}

-- No entry comes twice.
abbrev pub AreDistinct : List String → Type 0
AreDistinct [] = Unit
AreDistinct (x ∷ xs) = (contains x xs ≡ false) × AreDistinct xs

add_distinct-AreDistinct :
    (x : String) (xs : List String) → AreDistinct xs → AreDistinct (add_distinct x xs)
add_distinct-AreDistinct x xs h = elim (Bool-cases (contains x xs)) [
  | inl there ↦ rw there h
  | inr absent ↦ rw absent (absent, h)
]

add_reviewers-AreDistinct :
    (approval_id payload_hash : String) (attestations : List ReviewerAttestation)
    (ids : List String)
    → AreDistinct ids
    → AreDistinct (add_reviewers approval_id payload_hash attestations ids)
add_reviewers-AreDistinct approval_id payload_hash [] ids h = h
add_reviewers-AreDistinct approval_id payload_hash (a ∷ rest) ids h =
    add_reviewers-AreDistinct approval_id payload_hash rest _ (
      either_branch AreDistinct _ _ _ (add_distinct-AreDistinct a.material.reviewer_user_id ids h)
        h)

reviewers-AreDistinct :
    (approval : ApprovalRequest) (payload_hash : String) (attestations : List ReviewerAttestation)
    → AreDistinct (approval_reviewer_ids approval payload_hash attestations)
unfolding approval_reviewer_ids
reviewers-AreDistinct approval payload_hash attestations =
    add_reviewers-AreDistinct approval.id payload_hash attestations _ (
      either_branch AreDistinct (is_set approval.approved_by_user_id)
        (or_empty approval.approved_by_user_id ∷ []) [] (refl, tt) tt)

-- The scope is that of the approval and of the task that is linked to it.
pub record InScope (scope : CapabilityScope) (approval : ApprovalRequest) (tasks : List AgentTask)
    : Type 0 where
  pub task : AgentTask
  pub linked : linked_task_for_approval approval.id tasks ≡ some task
  pub repository : task.repository ≡ some scope.repository
  pub branch : scope.branch ≡ approval.target_branch
  pub task_branch : task.branch_preference ≡ some scope.branch
  pub paths :
      all
        (λ item. is_among (requested_path item) (approved_paths approval))
        scope.allowed_path_prefixes
      ≡ true
  pub commands :
      all
        (λ item. is_among (strip (codes item)) (approved_commands approval))
        scope.allowed_commands
      ≡ true
  pub no_auto_merge : scope.allow_auto_merge ≡ false

validate_scope-InScope :
    (scope : CapabilityScope) (approval : ApprovalRequest) (tasks : List AgentTask)
    → validate_scope_against_approval scope approval tasks ≡ none
    → InScope scope approval tasks
unfolding validate_scope_against_approval
validate_scope-InScope scope approval tasks h =
    elim (Option-cases (linked_task_for_approval approval.id tasks)) [
      | inl nothing ↦ ground (arith, nothing, h)
      | inr (task, there) ↦
          let raised : first_raised (scope_guards scope approval task) ≡ none =
            (rw (validate_scope_against_approval, there) at h) in
          let (repo, (branch, (task_branch, (paths, (commands, (merge, _)))))) =
            first_raised-none (scope_guards scope approval task) raised in
          record {
            task = task;
            linked = there;
            repository = ground (arith, repo, eq_iff (some scope.repository) task.repository);
            branch = ground (arith, branch, eq_iff scope.branch approval.target_branch);
            task_branch =
                ground (arith, task_branch, eq_iff (some scope.branch) task.branch_preference);
            paths = ground (arith, paths);
            commands = ground (arith, commands);
            no_auto_merge = merge;
          }
    ]

-- What the approval must have for a lease: it is APPROVED with a sealed payload that no reviewer
-- denied, the lease's scope is within it, and enough distinct reviewers accepted it, its author not
-- among them where that is asked for.
pub record Sanctioned (payload : CapabilityLeaseCreate) (approval : ApprovalRequest)
    (s : TrustStore) : Type 0 where
  pub approved : approval.status ≡ ApprovalStatus.approved
  pub seal : String
  pub sealed : approval.approved_payload_hash ≡ some seal
  pub undenied : has_denial approval.id seal s.attestations ≡ false
  pub in_scope : InScope payload.scope approval s.tasks
  pub enough :
      payload.required_reviewer_count ≤ length (approval_reviewer_ids approval seal s.attestations)
  pub distinct : AreDistinct (approval_reviewer_ids approval seal s.attestations)
  pub by_others :
      (payload.prevent_self_approval
        && is_reviewer approval.created_by_user_id
            (approval_reviewer_ids approval seal s.attestations))
      ≡ false

set_value : (v : Option String) → is_set v ≡ true → v ≡ some (or_empty v)
set_value none h = ground arith
set_value (some v) h = refl

or_else-none :
    (first later : Option Error) → or_else first later ≡ none → (first ≡ none) × (later ≡ none)
or_else-none none later h = (refl, h)
or_else-none (some e) later h = ground arith

pub issue_refusal-Sanctioned :
    (payload : CapabilityLeaseCreate) (approval : ApprovalRequest) (s : TrustStore)
    → issue_refusal payload approval s ≡ none
    → Sanctioned payload approval s
unfolding issue_refusal
issue_refusal-Sanctioned payload approval s h =
    let seal = or_empty approval.approved_payload_hash in
    let reviewers = approval_reviewer_ids approval seal s.attestations in
    let first = approval_guards payload approval s in
    let last = reviewer_guards payload approval reviewers in
    let (a, rest) = or_else-none (first_raised first) _ h in
    let (b, c) =
      or_else-none (validate_scope_against_approval payload.scope approval s.tasks) _ rest in
    let (approved, (sealed, (_, (undenied, _)))) = first_raised-none first a in
    let (by_others, (enough, _)) = first_raised-none last c in
    record {
      approved = ground (arith, approved, eq_iff approval.status ApprovalStatus.approved);
      seal = seal;
      sealed = set_value approval.approved_payload_hash (ground (arith, sealed));
      undenied = undenied;
      in_scope = validate_scope-InScope payload.scope approval s.tasks b;
      enough = ground (arith, enough);
      distinct = reviewers-AreDistinct approval seal s.attestations;
      by_others = by_others;
    }
