-- ===== src/AgentRun/Verifier/Laws.antt =====
-- `classify_execution_result` of agent_run_verifier.py.
use aixion_control_tower.Prelude.{Bool, true, false, ◌≡◌, ◌↔◌, String, arith}
use aixion_control_tower.AgentRun.Models.{Evidence, VerificationDecision}
use aixion_control_tower.AgentRun.Verifier.{contains_any, classify_execution_result}
use aixion_control_tower.AgentRun.Verifier.Markers.{policy_block_markers}

-- A result is successful exactly when its decision is PASS, whatever the reason says.
pub classify-pass_iff :
    (success : Bool) (reason : String) (evidence : Evidence) (duplicate_safe : Bool)
    → let r = classify_execution_result success reason evidence duplicate_safe in
      (r.success ≡ true) ↔ (r.decision ≡ VerificationDecision.pass)
unfolding classify_execution_result
classify-pass_iff success reason evidence duplicate_safe = (λ h. ground arith, λ h. ground arith)

-- A failure whose reason holds a policy marker blocks the run, unless it is a duplicate delivery
-- that the caller declared safe: no revision, human or transient marker can turn it into a retry.
pub classify-policy :
    (reason : String) (evidence : Evidence)
    → contains_any reason policy_block_markers ≡ true
    → (classify_execution_result false reason evidence false).decision
      ≡ VerificationDecision.block_policy
unfolding classify_execution_result
classify-policy reason evidence h = ground arith
