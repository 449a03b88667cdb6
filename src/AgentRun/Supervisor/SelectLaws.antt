-- ===== src/AgentRun/Supervisor/SelectLaws.antt =====
-- `_ready_step` of agent_run_supervisor.py, over the steps of a run in their order.
use aixion_control_tower.Prelude.{
  ◌≡◌, ◌⊎◌, refl, ap, ◌&&◌, true, Option, none, some, List, [], ◌∷◌, ◌++◌, arith, ◌==◌, eq_iff,
  contains, All, Bool-cases, inl, inr,
}
use aixion_control_tower.Prelude.Exec.{ok, Exec}
use aixion_control_tower.AgentRun.Models.{
  Instant, AgentRunStepStatus, AgentRunStep, AgentRunEventType, StatusValue, step_status_eq,
}
use aixion_control_tower.AgentRun.StateMachine.Derive.{passed_statuses}
use aixion_control_tower.AgentRun.StateMachine.DeriveLaws.{HasPassed}
use aixion_control_tower.AgentRun.StateMachine.Steps.{enter_step}
use aixion_control_tower.AgentRun.Supervisor.State.{Mission, run_steps, append_event, write_step}
use aixion_control_tower.AgentRun.Supervisor.Moves.{move_step-legal, enter_step_lem}
use aixion_control_tower.AgentRun.Supervisor.Select.{
  is_due, wake, examine, ready_step_from, ready_step,
}

-- What `_ready_step` may return at a time: a READY step as it was, or a step in RETRY_WAIT whose
-- backoff has elapsed, made READY.
abbrev pub IsReady : Instant → AgentRunStep → AgentRunStep → Type 0
IsReady now before after =
    (after.status ≡ AgentRunStepStatus.ready)
    × (after.id ≡ before.id)
    × (after.attempt_count ≡ before.attempt_count)
    × ((before.status ≡ AgentRunStepStatus.ready)
        ⊎ ((before.status ≡ AgentRunStepStatus.retry_wait)
            × (is_due before.next_retry_at now ≡ true)))

-- The list splits into passed steps, the chosen step, and the rest.
pub record Chosen (now : Instant) (steps : List AgentRunStep) (after : AgentRunStep) : Type 0 where
  pub passed : List AgentRunStep
  pub step : AgentRunStep
  pub rest : List AgentRunStep
  pub order : steps ≡ passed ++ (step ∷ rest)
  pub all_passed : All HasPassed passed
  pub is_ready : IsReady now step after

-- What `wake` does: it never raises, and it hands back the step itself or the step made READY.
pub record Woken (now : Instant) (step : AgentRunStep) (m : Mission) : Type 0 where
  pub after : AgentRunStep
  pub state : Mission
  pub returns : wake now step m ≡ (ok after, state)
  pub kind : (after ≡ step) ⊎ IsReady now step after

wake-Woken_due :
    (now : Instant) (step : AgentRunStep) (m : Mission)
    → step.status ≡ AgentRunStepStatus.retry_wait
    → is_due step.next_retry_at now ≡ true
    → Woken now step m
wake-Woken_due now step m e due =
    let woken = enter_step now AgentRunStepStatus.ready "Retry backoff elapsed." step in
    let entered = enter_step_lem now AgentRunStepStatus.ready "Retry backoff elapsed." step in
    record {
      after = woken;
      state =
          append_event AgentRunEventType.step_ready (some woken)
            (some (StatusValue.of_step step.status)) (some (StatusValue.of_step woken.status)) ""
            "system" none (write_step woken m);
      returns =
          ground
            (arith, move_step-legal now AgentRunStepStatus.ready "Retry backoff elapsed." step m);
      kind = inr (entered.status, entered.id, entered.attempts refl, inr (e, due));
    }

woken : (now : Instant) (step : AgentRunStep) (m : Mission) → Woken now step m
woken now step m =
    elim (Bool-cases
      ((step.status == AgentRunStepStatus.retry_wait) && is_due step.next_retry_at now)) [
        | inl due ↦
            wake-Woken_due now step m
              ((eq_iff step.status AgentRunStepStatus.retry_wait).0 (ground arith)) (ground arith)
        | inr idle ↦ record { after = step; state = m; returns = rw idle; kind = inl refl }
      ]

head_passed : (step : AgentRunStep) → contains step.status passed_statuses ≡ true → HasPassed step
head_passed step h = ground arith

head-Chosen :
    (now : Instant) (step after : AgentRunStep) (rest : List AgentRunStep)
    → IsReady now step after
    → Chosen now (step ∷ rest) after
head-Chosen now step after rest h = record {
  passed = [];
  step = step;
  rest = rest;
  order = refl;
  all_passed = tt;
  is_ready = h;
}

later-Chosen :
    (now : Instant) (step after : AgentRunStep) (rest : List AgentRunStep)
    → HasPassed step
    → Chosen now rest after
    → Chosen now (step ∷ rest) after
later-Chosen now step after rest p c = record {
  passed = step ∷ c.passed;
  step = c.step;
  rest = c.rest;
  order = ap (λ r. step ∷ r) c.order;
  all_passed = (p, c.all_passed);
  is_ready = c.is_ready;
}

examined :
    (later : Exec Mission (Option AgentRunStep)) (step after : AgentRunStep) (m m' : Mission)
    → examine later step m ≡ (ok (some after), m')
    → ((step.status ≡ AgentRunStepStatus.ready) × (after ≡ step))
      ⊎ (HasPassed step × (later m ≡ (ok (some after), m')))
examined later step after m m' h = ground (arith, eq_iff step.status AgentRunStepStatus.ready)

ready_kind :
    (now : Instant) (step found after : AgentRunStep)
    → (found ≡ step) ⊎ IsReady now step found
    → found.status ≡ AgentRunStepStatus.ready
    → after ≡ found
    → IsReady now step after
ready_kind now step found after (inl e) r a =
    rw (a, e)
      (let r' : step.status ≡ AgentRunStepStatus.ready = rw e at r in (r', refl, refl, inl r'))
ready_kind now step found after (inr k) r a = rw a k

passed_kind :
    (now : Instant) (step found : AgentRunStep)
    → (found ≡ step) ⊎ IsReady now step found
    → HasPassed found
    → HasPassed step
passed_kind now step found (inl e) p = rw e at p
passed_kind now step found (inr k) p = ground (arith, k)

ready_step_from-Chosen :
    (now : Instant) (steps : List AgentRunStep) (m m' : Mission) (after : AgentRunStep)
    → ready_step_from now steps m ≡ (ok (some after), m')
    → Chosen now steps after
unfolding ready_step_from
ready_step_from-Chosen now [] m m' after h = ground arith
ready_step_from-Chosen now (step ∷ rest) m m' after h =
    let w = woken now step m in
    elim (examined (ready_step_from now rest) w.after after w.state m' (rw w.returns at h)) [
      | inl (ready, same) ↦
          head-Chosen now step after rest (ready_kind now step w.after after w.kind ready same)
      | inr (passed, later) ↦
          later-Chosen now step after rest (passed_kind now step w.after w.kind passed)
            (ready_step_from-Chosen now rest w.state m' after later)
    ]

-- The step that `_ready_step` returns is READY and no other than one of the run's steps in their
-- order; every step before it is SUCCEEDED or SKIPPED; it was READY before, or it was waiting for
-- a retry whose time has come; its attempt count is the same.
pub ready_step_lem :
    (now : Instant) (m m' : Mission) (after : AgentRunStep)
    → ready_step now m ≡ (ok (some after), m')
    → Chosen now (run_steps m.run.id m.steps) after
unfolding ready_step
ready_step_lem now m m' after h =
    ready_step_from-Chosen now (run_steps m.run.id m.steps) m m' after h

ready_step_from-ok :
    (now : Instant) (steps : List AgentRunStep) (m : Mission)
    → (found : Option AgentRunStep) × (m' : Mission) × (ready_step_from now steps m
        ≡ (ok found, m'))
unfolding ready_step_from
ready_step_from-ok now [] m = (none, m, refl)
ready_step_from-ok now (step ∷ rest) m =
    let w = woken now step m in
    let (found, m', e) = ready_step_from-ok now rest w.state in
    elim (Bool-cases (w.after.status == AgentRunStepStatus.ready)) [
      | inl ready ↦ (some w.after, w.state, rw (w.returns, ready))
      | inr other ↦ elim (Bool-cases (contains w.after.status passed_statuses)) [
        | inl passed ↦ (found, m', rw (w.returns, other, passed) e)
        | inr stops ↦ (none, w.state, rw (w.returns, other, stops))
      ]
    ]

-- `_ready_step` never raises.
pub ready_step-ok :
    (now : Instant) (m : Mission)
    → (found : Option AgentRunStep) × (m' : Mission) × (ready_step now m ≡ (ok found, m'))
unfolding ready_step
ready_step-ok now m = ready_step_from-ok now (run_steps m.run.id m.steps) m
