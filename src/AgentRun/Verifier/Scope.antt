-- ===== src/AgentRun/Verifier/Scope.antt =====
-- `validate_scope_contract` of agent_run_verifier.py.
use aixion_control_tower.Prelude.{
  Bool, true, false, ◌≡◌, ◌≢◌, ◌↔◌, refl, ap, ◌||◌, Option, none, some, List, [], ◌∷◌, ◌++◌, String,
  arith, or_empty, is_nil, any,
}
use aixion_control_tower.Prelude.Text.{
  Text, codes, join_spaced, lower, lower_code, upper, strip, has, same, is_empty,
}
use aixion_control_tower.Prelude.TextLaws.{join_spaced-has}
use aixion_control_tower.AgentRun.Models.{VerificationDecision}
use aixion_control_tower.AgentRun.Verifier.{
  contains_any, ScopeApproval, approval_reasons, repository_reasons, branch_reasons, plan_reasons,
  approval_files, approval_tests, scope_reasons, validate_scope_contract,
}

-- The conditions of the scope contract.
pub record InScope (repository branch : Option String) (approval : Option ScopeApproval)
    : Type 0 where
  pub approved :
      (a : ScopeApproval) × (approval ≡ some a)
      × (same (upper (codes a.status)) (codes "APPROVED") ≡ true)
  pub slashed : has (strip (codes (or_empty repository))) (codes "/") ≡ true
  pub branched : is_empty (strip (codes (or_empty branch))) ≡ false
  pub unprotected :
      (same (strip (codes (or_empty branch))) (codes "main") ≡ false)
      × (same (strip (codes (or_empty branch))) (codes "master") ≡ false)
  pub planned : approval_files approval ≢ []
  pub tested : approval_tests approval ≢ []

append-is_nil :
    {A : Type 0} (xs ys : List A)
    → is_nil (xs ++ ys) ≡ true
    → (is_nil xs ≡ true) × (is_nil ys ≡ true)
append-is_nil [] ys h = (refl, h)
append-is_nil (x ∷ xs) ys h = ground arith

nil_of_is_nil : {A : Type 0} (xs : List A) → is_nil xs ≡ true → xs ≡ []
nil_of_is_nil [] h = refl
nil_of_is_nil (x ∷ xs) h = ground arith

is_nil_of_ne : {A : Type 0} (xs : List A) → xs ≢ [] → is_nil xs ≡ false
is_nil_of_ne [] h = absurd (h refl)
is_nil_of_ne (x ∷ xs) h = refl

is_nil_of_plan :
    (reason : String) (plan : List String)
    → is_nil (plan_reasons reason plan) ≡ true
    → is_nil plan ≡ false
is_nil_of_plan reason [] h = ground arith
is_nil_of_plan reason (x ∷ plan) h = refl

success-reasons :
    (repository branch : Option String) (approval : Option ScopeApproval)
    → (validate_scope_contract repository branch approval).success
      ≡ is_nil (scope_reasons repository branch approval)
unfolding validate_scope_contract
success-reasons repository branch approval =
    split (is_nil (scope_reasons repository branch approval)) refl
  where
    split :
        (b : Bool)
        → is_nil (scope_reasons repository branch approval) ≡ b
        → (validate_scope_contract repository branch approval).success ≡ b
    split true e = rw e
    split false e = rw e

approved_of_nil :
    (approval : Option ScopeApproval)
    → is_nil (approval_reasons approval) ≡ true
    → (a : ScopeApproval) × (approval ≡ some a)
      × (same (upper (codes a.status)) (codes "APPROVED") ≡ true)
approved_of_nil none h = ground arith
approved_of_nil (some a) h = (a, refl, ground arith)

within_of_nil :
    (repository branch : Option String) (approval : Option ScopeApproval)
    → is_nil (scope_reasons repository branch approval) ≡ true
    → InScope repository branch approval
unfolding scope_reasons
within_of_nil repository branch approval h =
    let (a, h₁) = append-is_nil (approval_reasons approval) _ h in
    let (r, h₂) = append-is_nil (repository_reasons repository) _ h₁ in
    let (b, h₃) = append-is_nil (branch_reasons branch) _ h₂ in
    let (f, t) =
      append-is_nil (plan_reasons _ (approval_files approval))
        (plan_reasons _ (approval_tests approval)) h₃ in
    record {
      approved = approved_of_nil approval a;
      slashed = ground arith;
      branched = ground arith;
      unprotected = ground arith;
      planned = λ e. cc (ap is_nil e, is_nil_of_plan _ (approval_files approval) f);
      tested = λ e. cc (ap is_nil e, is_nil_of_plan _ (approval_tests approval) t);
    }

nil_of_within :
    (repository branch : Option String) (approval : Option ScopeApproval)
    → InScope repository branch approval
    → scope_reasons repository branch approval ≡ []
unfolding scope_reasons
nil_of_within repository branch approval h =
    let (a, is, status) = h.approved in
    rw is (ground (arith, is_nil_of_ne a.files, is_nil_of_ne a.test_plan))

-- The scope contract passes exactly for an approved approval with files and tests, a repository that
-- contains a slash, whatever stands around it, and a branch that is neither empty nor main nor master.
pub scope_contract_iff :
    (repository branch : Option String) (approval : Option ScopeApproval)
    → ((validate_scope_contract repository branch approval).success ≡ true)
      ↔ InScope repository branch approval
scope_contract_iff repository branch approval = (
  λ h. within_of_nil repository branch approval (rw success-reasons at h),
  λ h. rw (success-reasons, nil_of_within repository branch approval h),
)

any-append_right :
    (p : String → Bool) (xs ys : List String) → any p ys ≡ true → any p (xs ++ ys) ≡ true
any-append_right p [] ys h = h
any-append_right p (x ∷ xs) ys h = ground (arith, any-append_right p xs ys h)

any-append_left :
    (p : String → Bool) (xs ys : List String) → any p xs ≡ true → any p (xs ++ ys) ≡ true
any-append_left p [] ys h = ground arith
any-append_left p (x ∷ xs) ys h = ground (arith, any-append_left p xs ys)

-- The branch, stripped of white space, is main or master.
abbrev pub IsProtected : Option String → Type 0
IsProtected branch =
    (same (strip (codes (or_empty branch))) (codes "main")
      || same (strip (codes (or_empty branch))) (codes "master"))
    ≡ true

abbrev mentions_protected : String → Bool
mentions_protected reason = has (lower (codes reason)) (codes "protected branch")

protected_reason :
    (branch : Option String)
    → is_empty (strip (codes (or_empty branch))) ≡ false
    → IsProtected branch
    → any mentions_protected (branch_reasons branch) ≡ true
unfolding lower_code
protected_reason branch filled h = rw (filled, h)

not_empty_of_same :
    (s : Text) → (same s (codes "main") || same s (codes "master")) ≡ true → is_empty s ≡ false
not_empty_of_same [] h = ground arith
not_empty_of_same (c ∷ s) h = refl

protected_joined :
    (repository branch : Option String) (approval : Option ScopeApproval)
    → IsProtected branch
    → mentions_protected (join_spaced (scope_reasons repository branch approval)) ≡ true
unfolding scope_reasons
protected_joined repository branch approval h =
    let plans : List String =
      plan_reasons "Approved file plan is empty." (approval_files approval)
      ++ plan_reasons "Approved validation plan is empty." (approval_tests approval) in
    let later : List String = branch_reasons branch ++ plans in
    let middle : List String = repository_reasons repository ++ later in
    let h' = not_empty_of_same (strip (codes (or_empty branch))) h in
    join_spaced-has (codes "protected branch") (approval_reasons approval ++ middle) (
      any-append_right mentions_protected (approval_reasons approval) middle (
        any-append_right mentions_protected (repository_reasons repository) later (
          any-append_left mentions_protected (branch_reasons branch) plans
            (protected_reason branch h' h))))

-- A run on main or master is blocked by policy, whatever else is wrong with its scope: it is never
-- retried nor handed to an operator.
pub scope-protected :
    (repository branch : Option String) (approval : Option ScopeApproval)
    → IsProtected branch
    → (validate_scope_contract repository branch approval).decision
      ≡ VerificationDecision.block_policy
unfolding validate_scope_contract contains_any
scope-protected repository branch approval h =
    ground (arith, protected_joined repository branch approval h)
