-- ===== src/Risk/EngineLaws.antt =====
-- What the level of an assessment depends on (backend/app/risk_engine.py).
use aixion_control_tower.Prelude.{
  ℕ, ◌≡◌, Bool, ◌||◌, List, [], ◌∷◌, any, max, is_nil, if◌then◌else◌,
}
use aixion_control_tower.Trust.Models.{RiskLevel}
use aixion_control_tower.Approvals.Models.{FileChange}
use aixion_control_tower.Risk.Engine.{
  risk_rank, risk_level_eq, ApprovalRequestCreate, RiskAssessment, touches, is_blocked_branch,
  is_blank, blocked_path_markers, critical_path_markers, high_path_markers, low_path_markers,
}

-- The level of one file on its own.
abbrev pub file_level : FileChange → RiskLevel
file_level change =
    if touches change.path critical_path_markers
    then RiskLevel.critical
    else if touches change.path high_path_markers
    then RiskLevel.high
    else if touches change.path low_path_markers
    then RiskLevel.low
    else RiskLevel.medium

-- A file that no request may touch, or that shows no change.
abbrev pub is_refused : FileChange → Bool
is_refused change = touches change.path blocked_path_markers || is_blank change.diff

-- The highest of the levels of the files and `level`.
abbrev pub highest_from : ℕ → List FileChange → ℕ
highest_from level [] = level
highest_from level (change ∷ rest) = highest_from (max level (risk_rank (file_level change))) rest

-- Whether a request is refused, whatever its files' levels.
abbrev pub is_request_refused : ApprovalRequestCreate → Bool
is_request_refused payload =
    is_blocked_branch payload.target_branch || is_nil payload.files || any is_refused payload.files

-- An assessment is the one of a refused request, or the level is `rank`.
pub record Assessed (refused : Bool) (rank : ℕ) (a : RiskAssessment) : Type 0 where
  blocked : a.blocked ≡ refused
  level : risk_rank a.level ≡ (if refused then 4 else rank)
