-- ===== src/Risk/Engine.antt =====
-- backend/app/risk_engine.py: `assess_approval_request` and `assess_work_order`, with the payloads of
-- models.py.
use aixion_control_tower.Prelude.{
  ℕ, ◌≡◌, Bool, true, false, ◌&&◌, ◌||◌, Option, none, some, List, [], ◌∷◌, ◌++◌, String, ◌⊎◌, inl,
  inr, ◌==◌, ◌!=◌, arith, Eq, enum_eq, any, is_nil, if◌then◌else◌,
}
use aixion_control_tower.Prelude.Text.{
  codes, concat, join_spaced, lower, strip, has, same, is_empty,
}
use aixion_control_tower.Trust.Models.{AgentProvider, RiskLevel}
use aixion_control_tower.Approvals.Models.{FileChange}

-- The order of `RiskLevel`.
abbrev pub risk_rank : RiskLevel → ℕ
risk_rank RiskLevel.low = 0
risk_rank RiskLevel.medium = 1
risk_rank RiskLevel.high = 2
risk_rank RiskLevel.critical = 3
risk_rank RiskLevel.blocked = 4

pub risk_rank-injective : (a b : RiskLevel) → risk_rank a ≡ risk_rank b → a ≡ b
risk_rank-injective a b h = ground arith

instance abbrev pub risk_level_eq : Eq RiskLevel
risk_level_eq = enum_eq risk_rank risk_rank-injective

pub record ApprovalRequestCreate : Type 0 where
  pub project_id : String
  pub work_order_id : Option String
  pub title : String
  pub summary : String
  pub agent_name : String
  pub target_branch : String
  pub files : List FileChange
  pub test_plan : List String
  pub rollback_plan : String
  pub source_provider : Option AgentProvider
  pub source_agent_id : Option String
  pub source_agent_name : Option String
  pub source_session_id : Option String
  pub source_task_url : Option String

pub record WorkOrderCreate : Type 0 where
  pub project_id : String
  pub idea_id : Option String
  pub goal : String
  pub context : String
  pub tasks : List String
  pub affected_areas : List String
  pub required_tests : List String
  pub rollback_plan : String

pub record RiskAssessment : Type 0 where
  pub level : RiskLevel
  pub reasons : List String
  pub blocked : Bool
  pub required_actions : List String

-- `BLOCKED_BRANCHES`
abbrev pub blocked_branches : List String
blocked_branches = "main" ∷ "master" ∷ "production" ∷ "release" ∷ []

-- `BLOCKED_PATH_MARKERS`
abbrev pub blocked_path_markers : List String
blocked_path_markers =
    ".env" ∷ "secret" ∷ "credential" ∷ "token" ∷ ".pem" ∷ ".key" ∷ "id_rsa" ∷ "secrets.yaml" ∷ []

-- `CRITICAL_PATH_MARKERS`
abbrev pub critical_path_markers : List String
critical_path_markers =
    "execution" ∷ "broker" ∷ "order" ∷ "payment" ∷ "risk_manager" ∷ "auth" ∷ "policy" ∷ []

-- `HIGH_PATH_MARKERS`
abbrev pub high_path_markers : List String
high_path_markers = "database" ∷ "migration" ∷ "deploy" ∷ "workflow" ∷ "ci" ∷ "security" ∷ []

-- `LOW_PATH_MARKERS`
abbrev pub low_path_markers : List String
low_path_markers = "readme" ∷ "docs/" ∷ "examples/" ∷ []

-- `any(marker in text.lower() for marker in markers)`
unfoldable pub touches : String → List String → Bool
touches text markers = any (λ marker. has (lower (codes text)) (codes marker)) markers

unfoldable pub is_blocked_branch : String → Bool
is_blocked_branch branch =
    any (λ name. same (strip (lower (codes branch))) (codes name)) blocked_branches

unfoldable pub is_blank : String → Bool
is_blank text = is_empty (strip (codes text))

abbrev pub refuse : String → String → RiskAssessment
refuse reason action = record {
  level = RiskLevel.blocked;
  reasons = reason ∷ [];
  blocked = true;
  required_actions = action ∷ [];
}

-- The two returns of the loop over the files.
abbrev pub blocking : FileChange → Option RiskAssessment
blocking change =
    if touches change.path blocked_path_markers
    then some (
        refuse (concat "Sensitive file path is blocked: " change.path)
          "Remove secrets or credential files from the request.")
    else if is_blank change.diff
    then some (
        refuse (concat "Missing diff for file: " change.path)
          "Provide a visible diff before approval.")
    else none

-- `highest` and `reasons`
pub record Scan : Type 0 where
  pub highest : RiskLevel
  pub reasons : List String

-- What a file that does not block adds.
abbrev pub grade : FileChange → Scan → Scan
grade change scan =
    if touches change.path critical_path_markers
    then record {
      highest = RiskLevel.critical;
      reasons = scan.reasons ++ concat "Critical path touched: " change.path ∷ [];
    }
    else if touches change.path high_path_markers && (scan.highest != RiskLevel.critical)
    then record {
      highest = RiskLevel.high;
      reasons = scan.reasons ++ concat "High-risk path touched: " change.path ∷ [];
    }
    else if touches change.path low_path_markers
    then record scan {
      reasons =
          scan.reasons ++ concat "Low-risk documentation/example path touched: " change.path ∷ [];
    }
    else if scan.highest == RiskLevel.low
    then record {
      highest = RiskLevel.medium;
      reasons =
          scan.reasons ++ concat "Application code or unknown path touched: " change.path ∷ [];
    }
    else scan

abbrev pub unless_blocked : Option RiskAssessment → RiskAssessment ⊎ Scan → RiskAssessment ⊎ Scan
unless_blocked (some refused) later = inl refused
unless_blocked none later = later

-- The loop over the files: an assessment that is returned at once, or what was gathered.
abbrev pub scan_files : List FileChange → Scan → RiskAssessment ⊎ Scan
scan_files [] scan = inr scan
scan_files (change ∷ rest) scan =
    unless_blocked (blocking change) (scan_files rest (grade change scan))

abbrev pub plan_actions : ApprovalRequestCreate → RiskLevel → List String
plan_actions payload highest =
    if (highest == RiskLevel.high) || (highest == RiskLevel.critical)
    then (if is_nil payload.test_plan then "Add a test plan before approval." ∷ [] else [])
      ++ (if is_blank payload.rollback_plan
          then "Add a rollback plan before approval." ∷ []
          else [])
    else []

abbrev pub conclude : ApprovalRequestCreate → RiskAssessment ⊎ Scan → RiskAssessment
conclude payload (inl refused) = refused
conclude payload (inr scan) = record {
  level = scan.highest;
  reasons =
      if is_nil scan.reasons
      then "No risky markers found; defaulted to LOW." ∷ []
      else scan.reasons;
  blocked = false;
  required_actions = plan_actions payload scan.highest;
}

unfoldable pub assess_approval_request : ApprovalRequestCreate → RiskAssessment
assess_approval_request payload =
    if is_blocked_branch payload.target_branch
    then refuse
        (concat "Direct edits to protected branch '"
          (concat payload.target_branch "' are blocked."))
        "Create a feature branch before requesting approval."
    else if is_nil payload.files
    then refuse "Approval request has no file changes." "Attach at least one file diff."
    else conclude payload
        (scan_files payload.files (record { highest = RiskLevel.low; reasons = [] }))

unfoldable pub assess_work_order : WorkOrderCreate → RiskLevel
assess_work_order payload =
    let text =
      join_spaced (payload.goal ∷ payload.context ∷ payload.tasks ++ payload.affected_areas) in
    if touches text ("execution" ∷ "broker" ∷ "payment" ∷ "auth" ∷ "security" ∷ [])
    then RiskLevel.critical
    else if touches text ("database" ∷ "deploy" ∷ "policy" ∷ "risk" ∷ [])
    then RiskLevel.high
    else if touches text ("dashboard" ∷ "api" ∷ "config" ∷ [])
    then RiskLevel.medium
    else RiskLevel.low
