-- ===== src/AgentRun/Supervisor/PassLaws.antt =====
-- `_apply_execution_result` of agent_run_supervisor.py, for results that pass.
use aixion_control_tower.Prelude.{
  ℕ, ◌<◌, ◌≡◌, ◌⊎◌, refl, true, false, ◌&&◌, Option, none, some, List, [], ◌∷◌, String, arith, ◌==◌,
  eq_iff, All, ap, sym, ◌++◌, ltb, Bool-cases, inl, inr,
}
use mathlib.Core.Path.{subst}
use aixion_control_tower.Prelude.Exec.{Result, ok, continue}
use aixion_control_tower.Prelude.Dict.{put}
use aixion_control_tower.AgentRun.Models.{
  Instant, Evidence, AgentRunStatus, AgentRunStepStatus, AgentRunStep, AgentRunEventType,
  VerificationDecision, AgentRunStepExecutionResult, step_status_eq,
}
use aixion_control_tower.AgentRun.StateMachine.Steps.{enter_step}
use aixion_control_tower.AgentRun.Supervisor.State.{Mission, step_keyed, run_steps, write_step}
use aixion_control_tower.AgentRun.Supervisor.Moves.{
  move_step-legal, move_run-legal, enter_step_lem, enter_run_lem,
}
use aixion_control_tower.AgentRun.Supervisor.Select.{promote, next_pending_from, next_pending_step}
use aixion_control_tower.AgentRun.Supervisor.Apply.{
  record_result, step_event, after_pass, apply_pass, apply_decision, apply_execution_result,
}

-- Not a step that `_next_pending_step` would take after `sequence`.
abbrev pub NotNext : ℕ → AgentRunStep → Type 0
NotNext sequence step =
    (ltb sequence step.sequence && (step.status == AgentRunStepStatus.pending)) ≡ false

-- The first later pending step has been handed the run.
pub record Handed (sequence : ℕ) (steps : List AgentRunStep) (m : Mission)
    (outcome : Result (Option AgentRunStep) × Mission) : Type 0 where
  pub skipped : List AgentRunStep
  pub next : AgentRunStep
  pub rest : List AgentRunStep
  pub ready : AgentRunStep
  pub state : Mission
  pub order : steps ≡ skipped ++ (next ∷ rest)
  pub none_before : All (NotNext sequence) skipped
  pub was_pending : next.status ≡ AgentRunStepStatus.pending
  pub later : sequence < next.sequence
  pub outcome_is : outcome ≡ (ok (some ready), state)
  pub is_ready : ready.status ≡ AgentRunStepStatus.ready
  pub same_step : ready.id ≡ next.id
  pub run_status : state.run.status ≡ m.run.status
  pub current : state.run.current_step_id ≡ some next.id

-- The two ways in which `_next_pending_step` ends.
abbrev pub Handover :
    ℕ → List AgentRunStep → Mission → Result (Option AgentRunStep) × Mission → Type 0
Handover sequence steps m outcome =
    (All (NotNext sequence) steps × (outcome ≡ (ok none, m))) ⊎ Handed sequence steps m outcome

promoted :
    (now : Instant) (sequence : ℕ) (step : AgentRunStep) (rest : List AgentRunStep) (m : Mission)
    → (ltb sequence step.sequence && (step.status == AgentRunStepStatus.pending)) ≡ true
    → Handed sequence (step ∷ rest) m (promote now step m)
promoted now sequence step rest m h =
    let pending : step.status ≡ AgentRunStepStatus.pending =
      (eq_iff step.status AgentRunStepStatus.pending).0 (ground arith) in
    let ready = enter_step now AgentRunStepStatus.ready "" step in
    let entered = enter_step_lem now AgentRunStepStatus.ready "" step in
    rw (move_step-legal now AgentRunStepStatus.ready "" step m (rw pending)) (record {
      skipped = [];
      next = step;
      rest = rest;
      ready = ready;
      state = _;
      order = refl;
      none_before = tt;
      was_pending = pending;
      later = ground arith;
      outcome_is = refl;
      is_ready = entered.status;
      same_step = entered.id;
      run_status = refl;
      current = refl;
    })

later-Handover :
    (sequence : ℕ) (step : AgentRunStep) (rest : List AgentRunStep) (m : Mission)
    (outcome : Result (Option AgentRunStep) × Mission)
    → NotNext sequence step
    → Handover sequence rest m outcome
    → Handover sequence (step ∷ rest) m outcome
later-Handover sequence step rest m outcome n (inl (all_not, e)) = inl ((n, all_not), e)
later-Handover sequence step rest m outcome n (inr h) = inr (record {
  skipped = step ∷ h.skipped;
  next = h.next;
  rest = h.rest;
  ready = h.ready;
  state = h.state;
  order = ap (λ r. step ∷ r) h.order;
  none_before = (n, h.none_before);
  was_pending = h.was_pending;
  later = h.later;
  outcome_is = h.outcome_is;
  is_ready = h.is_ready;
  same_step = h.same_step;
  run_status = h.run_status;
  current = h.current;
})

next_pending_from-Handover :
    (now : Instant) (sequence : ℕ) (steps : List AgentRunStep) (m : Mission)
    → Handover sequence steps m (next_pending_from now sequence steps m)
unfolding next_pending_from
next_pending_from-Handover now sequence [] m = inl (tt, refl)
next_pending_from-Handover now sequence (step ∷ rest) m =
    elim (Bool-cases (ltb sequence step.sequence && (step.status == AgentRunStepStatus.pending))) [
      | inl takes ↦ inr (rw takes (promoted now sequence step rest m takes))
      | inr passes ↦
          let e : next_pending_from now sequence (step ∷ rest) m
              ≡ next_pending_from now sequence rest m =
            rw passes in
          subst (Handover sequence (step ∷ rest) m) (sym e) (
            later-Handover sequence step rest m (next_pending_from now sequence rest m) passes
              (next_pending_from-Handover now sequence rest m))
    ]

-- What PASS leaves: the result, and the run's status beside the first later pending step.
pub record Passed (step : AgentRunStep) (steps : List AgentRunStep)
    (outcome : Result (Unit {0}) × Mission) : Type 0 where
  pub returns : outcome.0 ≡ ok tt
  pub run_status :
      ((outcome.1.run.status ≡ AgentRunStatus.succeeded) × All (NotNext step.sequence) steps)
      ⊎ ((outcome.1.run.status ≡ AgentRunStatus.running)
          × ((next : AgentRunStep) × (skipped rest : List AgentRunStep) × (steps
                ≡ skipped ++ (next ∷ rest))
              × All (NotNext step.sequence) skipped
              × (next.status ≡ AgentRunStepStatus.pending)
              × (step.sequence < next.sequence)
              × (outcome.1.run.current_step_id ≡ some next.id)))

after_pass-Passed :
    (now : Instant) (actor : String) (step : AgentRunStep) (steps : List AgentRunStep) (m : Mission)
    (outcome : Result (Option AgentRunStep) × Mission)
    → m.run.status ≡ AgentRunStatus.running
    → Handover step.sequence steps m outcome
    → Passed step steps (continue outcome.0 (after_pass now actor) outcome.1)
after_pass-Passed now actor step steps m outcome hr (inl (all_not, e)) =
    let run = enter_run_lem now AgentRunStatus.succeeded "" m.run in
    rw (e, move_run-legal now AgentRunStatus.succeeded "" m (rw hr))
      (record { returns = refl; run_status = inl (run.status, all_not) })
after_pass-Passed now actor step steps m outcome hr (inr h) = rw h.outcome_is (record {
  returns = refl;
  run_status = inr (
    refl,
    (h.next, h.skipped, h.rest, h.order, h.none_before, h.was_pending, h.later, h.current),
  );
})

pass-Passed :
    (now : Instant) (actor : String) (result : AgentRunStepExecutionResult) (step : AgentRunStep)
    (m : Mission)
    → step.status ≡ AgentRunStepStatus.running
    → m.run.status ≡ AgentRunStatus.running
    → Passed step
        (run_steps m.run.id
          (put (enter_step now AgentRunStepStatus.succeeded result.reason step) m.steps))
        (apply_pass now actor result step m)
unfolding next_pending_step
pass-Passed now actor result step m hs hr =
    let done = enter_step now AgentRunStepStatus.succeeded result.reason step in
    let entered = enter_step_lem now AgentRunStepStatus.succeeded result.reason step in
    let m' =
      step_event AgentRunEventType.step_succeeded step.status done "" actor done.evidence_hash
        (write_step done m) in
    let steps = run_steps m.run.id (put done m.steps) in
    rw (move_step-legal now AgentRunStepStatus.succeeded result.reason step m (rw hs)) (
      after_pass-Passed now actor step steps m' (next_pending_from now done.sequence steps m') hr (
        subst (λ k. Handover k steps m' (next_pending_from now done.sequence steps m'))
          entered.sequence (next_pending_from-Handover now done.sequence steps m')))

-- A result that PASSes, of a step in RUNNING and a run in RUNNING, is applied without an exception.
-- The run becomes SUCCEEDED exactly when none of its steps with a later sequence is PENDING; else
-- the run stays RUNNING and the first such step is its current step.
pub apply-Passed :
    (evidence_hash : Evidence → String) (now : Instant) (actor : String)
    (result : AgentRunStepExecutionResult) (step : AgentRunStep) (m : Mission)
    → step.status ≡ AgentRunStepStatus.running
    → m.run.status ≡ AgentRunStatus.running
    → result.decision ≡ VerificationDecision.pass
    → let noted = record_result evidence_hash now result step in
      let done = enter_step now AgentRunStepStatus.succeeded result.reason noted in
      Passed step
        (run_steps m.run.id (put done (put noted m.steps)))
        (apply_execution_result evidence_hash now actor result step m)
unfolding apply_execution_result
apply-Passed evidence_hash now actor result step m hs hr hd =
    let noted = record_result evidence_hash now result step in
    let done = enter_step now AgentRunStepStatus.succeeded result.reason noted in
    subst
      (λ d.
        Passed step (run_steps m.run.id (put done (put noted m.steps)))
          (apply_decision d now actor result noted (write_step noted m)))
      (sym hd)
      (let p = pass-Passed now actor result noted (write_step noted m) hs hr in
        record { returns = p.returns; run_status = p.run_status })
