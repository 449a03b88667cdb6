-- ===== src/AgentRun/Supervisor/DueLaws.antt =====
-- When a scheduled retry is due (`_apply_execution_result` of agent_run_supervisor.py).
use aixion_control_tower.Prelude.{
  ℕ, zero, suc, ◌+◌, ◌*◌, ◌^◌, max, ◌≤◌, ◌<◌, min, ◌≡◌, refl, ap, ◌∙◌, true, some, String, arith,
  ltb, sym,
}
use mathlib.Core.Path.{subst}
use native.Mathlib.Nat.{pow-suc}
use aixion_control_tower.Prelude.Exec.{Result}
use aixion_control_tower.Prelude.Dict.{get, put, get-put_self}
use aixion_control_tower.AgentRun.Models.{
  Instant, second, Evidence, AgentRunStatus, AgentRunStepStatus, AgentRunStep, VerificationDecision,
  AgentRunStepExecutionResult, step_status_eq,
}
use aixion_control_tower.AgentRun.StateMachine.Steps.{enter_step}
use aixion_control_tower.AgentRun.Supervisor.State.{Mission, step_keyed, write_step}
use aixion_control_tower.AgentRun.Supervisor.Moves.{move_step-legal, move_run-legal, enter_step_lem}
use aixion_control_tower.AgentRun.Supervisor.Apply.{
  record_result, delay_seconds, apply_retry, apply_decision, apply_execution_result,
}

two-le-pow : (k : ℕ) → 2 ≤ 2 ^ suc k
two-le-pow zero = omega arith
two-le-pow (suc k) = rw (pow-suc 2 (suc k)) (omega (arith, two-le-pow k))

-- The delay is between two seconds and five minutes, and each further attempt doubles it.
delay_bounds :
    (attempts : ℕ)
    → (2 ≤ delay_seconds attempts)
      × (delay_seconds attempts ≤ 300)
      × (delay_seconds (suc (suc attempts)) ≡ min 300 (2 * delay_seconds (suc attempts)))
delay_bounds zero = omega arith
delay_bounds (suc k) =
    let e : max 1 (suc k) ≡ suc k = omega arith in
    let e' : max 1 (suc (suc k)) ≡ suc (suc k) = omega arith in
    let e'' : max 1 (suc (suc (suc k))) ≡ suc (suc (suc k)) = omega arith in
    rw (e, e', e'', pow-suc 2 (suc (suc k)), pow-suc 2 (suc k)) (omega (arith, two-le-pow k))

-- The delays in seconds: two, doubled at each attempt after the first, five minutes at most.
abbrev pub backoff : ℕ → ℕ
backoff zero = 2
backoff (suc zero) = 2
backoff (suc (suc k)) = min 300 (2 * backoff (suc k))

delay-backoff : (attempts : ℕ) → delay_seconds attempts ≡ backoff attempts
delay-backoff zero = refl
delay-backoff (suc zero) = refl
delay-backoff (suc (suc k)) = (delay_bounds k).2 ∙ ap (λ d. min 300 (2 * d)) (delay-backoff (suc k))

-- The step waits in the store, and is due `backoff` seconds after `now`.
pub record Due (now : Instant) (step : AgentRunStep) (outcome : Result (Unit {0}) × Mission)
    : Type 0 where
  pub after : AgentRunStep
  pub found : get step.id outcome.1.steps ≡ some after
  pub waits : after.status ≡ AgentRunStepStatus.retry_wait
  pub due : after.next_retry_at ≡ some (now + backoff step.attempt_count * second)
  pub soonest : 2 ≤ backoff step.attempt_count
  pub latest : backoff step.attempt_count ≤ 300

retry-Due :
    (now : Instant) (actor : String) (result : AgentRunStepExecutionResult) (step : AgentRunStep)
    (m : Mission)
    → step.status ≡ AgentRunStepStatus.running
    → m.run.status ≡ AgentRunStatus.running
    → ltb step.attempt_count step.max_attempts ≡ true
    → Due now step (apply_retry now actor result step m)
retry-Due now actor result step m hs hr left =
    let waiting = enter_step now AgentRunStepStatus.retry_wait result.reason step in
    let timed : AgentRunStep = record waiting {
      next_retry_at = some (now + delay_seconds step.attempt_count * second);
    } in
    let entered = enter_step_lem now AgentRunStepStatus.retry_wait result.reason step in
    let same = delay-backoff step.attempt_count in
    let (low, high, _) = delay_bounds step.attempt_count in
    rw
      (
        left,
        move_step-legal now AgentRunStepStatus.retry_wait result.reason step m (rw hs),
        move_run-legal now AgentRunStatus.retry_wait result.reason
            (write_step timed (write_step waiting m)) (rw hr),
      )
      (record {
        after = timed;
        found = get-put_self timed step.id (put waiting m.steps) entered.id;
        waits = entered.status;
        due = ap (λ d. some (now + d * second)) same;
        soonest = subst (λ d. 2 ≤ d) same low;
        latest = subst (λ d. d ≤ 300) same high;
      })

-- A transient failure of a step that has attempts left, both it and its run in RUNNING, leaves the step
-- in RETRY_WAIT, due between two seconds and five minutes later: two seconds after the first attempt,
-- and twice as long after each further one, up to the five minutes.
pub apply-Due :
    (evidence_hash : Evidence → String) (now : Instant) (actor : String)
    (result : AgentRunStepExecutionResult) (step : AgentRunStep) (m : Mission)
    → step.status ≡ AgentRunStepStatus.running
    → m.run.status ≡ AgentRunStatus.running
    → result.decision ≡ VerificationDecision.retry_transient
    → step.attempt_count < step.max_attempts
    → Due now step (apply_execution_result evidence_hash now actor result step m)
unfolding apply_execution_result
apply-Due evidence_hash now actor result step m hs hr hd left =
    let noted = record_result evidence_hash now result step in
    let d : Due now noted
        (apply_decision result.decision now actor result noted (write_step noted m)) =
      subst (λ d. Due now noted (apply_decision d now actor result noted (write_step noted m)))
        (sym hd)
        (retry-Due now actor result noted (write_step noted m) hs hr (ground (arith, left))) in
    record {
      after = d.after;
      found = d.found;
      waits = d.waits;
      due = d.due;
      soonest = d.soonest;
      latest = d.latest;
    }
