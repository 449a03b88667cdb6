-- ===== src/AgentRun/Verifier.antt =====
-- backend/app/agent_run_verifier.py: the classification of an execution result by its reason text,
-- and the scope contract. The metrics over float confidences are not modelled.
pub mod Markers
pub mod Laws
pub mod Scope
use aixion_control_tower.Prelude.{
  Bool, true, false, ◌&&◌, ◌||◌, not, Option, none, some, List, [], ◌∷◌, ◌++◌, String, truthy,
  or_empty, ◌==◌, string_eq, if◌then◌else◌, any, is_nil,
}
use aixion_control_tower.Prelude.Text.{
  codes, concat, join_spaced, lower, upper, strip, has, same, is_empty,
}
use aixion_control_tower.AgentRun.Models.{
  Evidence, VerificationDecision, AgentRunStepExecutionResult,
}
use Markers.{
  transient_markers, policy_block_markers, revision_markers, human_markers, duplicate_markers,
}

-- `_contains_any`
unfoldable pub contains_any : String → List String → Bool
contains_any reason markers = any (λ marker. has (lower (codes reason)) (codes marker)) markers

-- `reason or default`
abbrev pub reason_or : String → String → String
reason_or reason fallback = if truthy reason then reason else fallback

-- `{**evidence, key: value}`
abbrev pub with_entry : String → String → Evidence → Evidence
with_entry key value [] = (key, value) ∷ []
with_entry key value ((k, v) ∷ rest) =
    let later = with_entry key value rest in
    if k == key then (key, value) ∷ rest else (k, v) ∷ later

-- The ladder of `classify_execution_result` over the markers of a failure.
unfoldable pub classify_failure : String → VerificationDecision
classify_failure reason =
    if contains_any reason policy_block_markers
    then VerificationDecision.block_policy
    else if contains_any reason revision_markers
    then VerificationDecision.needs_revision
    else if contains_any reason human_markers
    then VerificationDecision.needs_human
    else if contains_any reason transient_markers
    then VerificationDecision.retry_transient
    else VerificationDecision.fail_permanent

unfoldable pub classify_execution_result :
    Bool → String → Evidence → Bool → AgentRunStepExecutionResult
unfolding classify_failure
classify_execution_result success reason evidence duplicate_safe =
    if success
    then record {
      success = true;
      decision = VerificationDecision.pass;
      reason = reason_or reason "Execution contract passed.";
      evidence = evidence;
      output_reference = none;
    }
    else if duplicate_safe && contains_any reason duplicate_markers
    then record {
      success = true;
      decision = VerificationDecision.pass;
      reason =
          "Duplicate delivery matched previously verified side effects and was treated as idempotent.";
      evidence = with_entry "original_reason" reason (with_entry "duplicate_safe" "True" evidence);
      output_reference = none;
    }
    else record {
      success = false;
      decision = classify_failure reason;
      reason = reason_or reason "Execution contract failed without a reason.";
      evidence = evidence;
      output_reference = none;
    }

-- What `validate_scope_contract` reads of an approval.
pub record ScopeApproval : Type 0 where
  pub status : String
  pub files : List String
  pub test_plan : List String

abbrev pub approval_reasons : Option ScopeApproval → List String
approval_reasons none = "Linked approval is required." ∷ []
approval_reasons (some a) =
    if same (upper (codes a.status)) (codes "APPROVED")
    then []
    else concat "Linked approval must be APPROVED, got " (concat (reason_or a.status "missing") ".")
      ∷ []

abbrev pub repository_reasons : Option String → List String
repository_reasons field =
    let repository = strip (codes (or_empty field)) in
    if is_empty repository || not (has repository (codes "/"))
    then "Agent task repository must use owner/name format." ∷ []
    else []

abbrev pub branch_reasons : Option String → List String
branch_reasons field =
    let branch = strip (codes (or_empty field)) in
    if is_empty branch
    then "Feature branch preference is required." ∷ []
    else if same branch (codes "main") || same branch (codes "master")
    then "Protected branch policy: branch must not be main or master." ∷ []
    else []

abbrev pub approval_files : Option ScopeApproval → List String
approval_files none = []
approval_files (some a) = a.files

abbrev pub approval_tests : Option ScopeApproval → List String
approval_tests none = []
approval_tests (some a) = a.test_plan

abbrev pub plan_reasons : String → List String → List String
plan_reasons reason plan = if is_nil plan then reason ∷ [] else []

-- The list `reasons` of `validate_scope_contract`.
unfoldable pub scope_reasons : Option String → Option String → Option ScopeApproval → List String
scope_reasons repository branch approval =
    approval_reasons approval
    ++ (repository_reasons repository
        ++ (branch_reasons branch
            ++ (plan_reasons "Approved file plan is empty." (approval_files approval)
                ++ plan_reasons "Approved validation plan is empty." (approval_tests approval))))

-- The counts in the evidence are left out.
unfoldable pub validate_scope_contract :
    Option String → Option String → Option ScopeApproval → AgentRunStepExecutionResult
unfolding scope_reasons classify_execution_result
validate_scope_contract repository branch approval =
    let reasons = scope_reasons repository branch approval in
    if is_nil reasons
    then classify_execution_result true
        "Approval, repository, feature branch, file plan, and validation plan satisfy the execution scope contract."
        [] false
    else classify_execution_result false (join_spaced reasons) [] false
