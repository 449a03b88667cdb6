-- ===== src/Trust/Runs/Shares.antt =====
-- The consumption after a step (agent_run_trust.py: consume_run_step_actions).
use aixion_control_tower.Prelude.{
  ℕ, ◌+◌, ◌-◌, ◌*◌, ◌/◌, ◌<◌, ◌≡◌, List, [], ◌∷◌, arith, string_eq, option_eq,
}
use aixion_control_tower.Prelude.Lists.{length}
use Prim.Native.Nat.{◌%◌}
use native.Mathlib.Nat.{mod-lt, div-add-mod}
use aixion_control_tower.AgentRun.Models.{AgentRunStep}
use aixion_control_tower.Trust.Leases.{ProposedAction, ActionConsumption}
use aixion_control_tower.AgentRun.Models.{step_type_eq}
use aixion_control_tower.Trust.Leases.{lease_keyed, action_keyed}
use aixion_control_tower.Trust.Runs.StepTrust.{duration_seconds, step_consumptions}

-- The runtime of all the consumptions together.
abbrev pub total_runtime : List (ProposedAction × ActionConsumption) → ℕ
total_runtime [] = 0
total_runtime ((action, consumption) ∷ rest) =
    consumption.actual_runtime_seconds + total_runtime rest

shares_from :
    (step : AgentRunStep) (count index : ℕ) (actions : List ProposedAction)
    → let q = duration_seconds step / count in
      let r = duration_seconds step - q * count in
      total_runtime (step_consumptions step count index actions) + (r - (index + length actions))
      ≡ length actions * q + (r - index)
shares_from step count index [] = omega arith
shares_from step count index (action ∷ rest) =
    ground (arith, shares_from step count (index + 1) rest)

-- The runtimes of the actions of a step add up to the duration of the step, to the second.
pub step_consumptions-total_runtime :
    (step : AgentRunStep) (action : ProposedAction) (rest : List ProposedAction)
    → total_runtime (step_consumptions step (length (action ∷ rest)) 0 (action ∷ rest))
      ≡ duration_seconds step
step_consumptions-total_runtime step action rest =
    let actions = action ∷ rest in
    let d = duration_seconds step in
    let n = length actions in
    let all = shares_from step n 0 actions in
    let parts : n * (d / n) + d % n ≡ d = div-add-mod d n in
    let below : d % n < n = mod-lt d (omega arith) in omega (arith, all, parts, below)
