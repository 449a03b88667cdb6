-- ===== src/AgentRun/Supervisor/CancelLaws.antt =====
-- `cancel_agent_run` of agent_run_supervisor.py.
use aixion_control_tower.Prelude.{
  ◌≡◌, refl, true, false, none, some, List, [], ◌∷◌, String, arith, ◌==◌, eq_iff, string_eq, sym,
  ◌∙◌, All, contains, Bool-cases, inl, inr,
}
use aixion_control_tower.Prelude.Exec.{Result, ok}
use mathlib.Core.Path.{subst}
use mathlib.Core.Option.{some-injective}
use aixion_control_tower.Prelude.Lists.{All-map}
use aixion_control_tower.Prelude.Dict.{get, put, get-put}
use aixion_control_tower.AgentRun.Models.{
  Instant, AgentRunStatus, AgentRunStepStatus, AgentRunStep, run_status_eq, step_status_eq,
}
use aixion_control_tower.AgentRun.StateMachine.Runs.{terminal_run_statuses}
use aixion_control_tower.AgentRun.StateMachine.Steps.{enter_step}
use aixion_control_tower.AgentRun.StateMachine.StepLaws.{is_terminal}
use aixion_control_tower.AgentRun.Verifier.{reason_or}
use aixion_control_tower.AgentRun.Supervisor.State.{Mission, step_keyed, run_steps, write_run}
use aixion_control_tower.AgentRun.Supervisor.Moves.{
  CanMoveStep, CanMoveRun, move_step-legal, move_run-legal, enter_step_lem, enter_run_lem,
}
use aixion_control_tower.AgentRun.Supervisor.Control.{
  cancel_step, cancel_steps, cancel_open_run, cancel_agent_run,
}

-- The store's entry for an id, if there is one, is a step in a terminal status.
abbrev pub IsOver : String → List AgentRunStep → Type 0
IsOver id steps = (s : AgentRunStep) → get id steps ≡ some s → is_terminal s.status ≡ true

-- What a part of the loop guarantees: it returns, the run is as it was, what was over stays over.
pub record Cancels (m : Mission) (outcome : Result (Unit {0}) × Mission) : Type 0 where
  pub returns : outcome.0 ≡ ok tt
  pub run : outcome.1.run ≡ m.run
  pub stays : (id : String) → IsOver id m.steps → IsOver id outcome.1.steps

can_cancel :
    (s : AgentRunStepStatus) → is_terminal s ≡ false → CanMoveStep s AgentRunStepStatus.cancelled
can_cancel s h = ground arith

can_cancel_run :
    (s : AgentRunStatus)
    → contains s terminal_run_statuses ≡ false
    → CanMoveRun s AgentRunStatus.cancelled
can_cancel_run s h = ground arith

put-IsOver :
    (id : String) (x : AgentRunStep) (steps : List AgentRunStep)
    → is_terminal x.status ≡ true
    → IsOver id steps
    → IsOver id (put x steps)
put-IsOver id x steps over h s e = elim (Bool-cases (x.id == id)) [
  | inl same ↦ ground (arith, get-put x id steps)
  | inr other ↦ h s (ground (arith, get-put x id steps))
]

put-IsOver_self :
    (x : AgentRunStep) (steps : List AgentRunStep)
    → is_terminal x.status ≡ true
    → IsOver x.id (put x steps)
put-IsOver_self x steps over s e = ground (arith, get-put x x.id steps, eq_iff x.id x.id)

-- The loop's snapshot: each step in it is what the store holds for its id.
abbrev pub IsCurrent : List AgentRunStep → AgentRunStep → Type 0
IsCurrent steps step = get step.id steps ≡ some step

cancel_step-Cancels :
    (now : Instant) (actor reason : String) (step : AgentRunStep) (m : Mission)
    → Cancels m (cancel_step now actor reason step m)
cancel_step-Cancels now actor reason step m = elim (Bool-cases (is_terminal step.status)) [
  | inl over ↦ rw over (record { returns = refl; run = refl; stays = λ id h. h })
  | inr open_step ↦
      let why = reason_or reason "Run cancelled." in
      let gone = enter_step now AgentRunStepStatus.cancelled why step in
      let entered = enter_step_lem now AgentRunStepStatus.cancelled why step in
      rw
        (
          open_step,
          move_step-legal now AgentRunStepStatus.cancelled why step m
              (can_cancel step.status open_step),
        )
        (record {
          returns = refl;
          run = refl;
          stays = λ id h. put-IsOver id gone m.steps (rw entered.status) h;
        })
]

cancel_step-IsOver :
    (now : Instant) (actor reason : String) (step : AgentRunStep) (m : Mission)
    → (is_terminal step.status ≡ true → IsOver step.id m.steps)
    → IsOver step.id (cancel_step now actor reason step m).1.steps
cancel_step-IsOver now actor reason step m h = elim (Bool-cases (is_terminal step.status)) [
  | inl over ↦ rw over (h over)
  | inr open_step ↦
      let why = reason_or reason "Run cancelled." in
      let gone = enter_step now AgentRunStepStatus.cancelled why step in
      let entered = enter_step_lem now AgentRunStepStatus.cancelled why step in
      rw
        (
          open_step,
          move_step-legal now AgentRunStepStatus.cancelled why step m
              (can_cancel step.status open_step),
        )
        (subst (λ i. IsOver i (put gone m.steps)) entered.id
          (put-IsOver_self gone m.steps (rw entered.status)))
]

abbrev Covered : List AgentRunStep → AgentRunStep → Type 0
Covered steps step = is_terminal step.status ≡ true → IsOver step.id steps

-- What the whole loop guarantees beside `Cancels`.
record CancelsAll (xs : List AgentRunStep) (m : Mission) (outcome : Result (Unit {0}) × Mission)
    : Type 0 where
  loop : Cancels m outcome
  over : All (λ x. IsOver x.id outcome.1.steps) xs

cancel_steps-CancelsAll :
    (now : Instant) (actor reason : String) (xs : List AgentRunStep) (m : Mission)
    → All (Covered m.steps) xs
    → CancelsAll xs m (cancel_steps now actor reason xs m)
unfolding cancel_steps
cancel_steps-CancelsAll now actor reason [] m h = record {
  loop = record { returns = refl; run = refl; stays = λ id h. h };
  over = tt;
}
cancel_steps-CancelsAll now actor reason (x ∷ xs) m h =
    let one = cancel_step now actor reason x m in
    let first = cancel_step-Cancels now actor reason x m in
    let covered =
      All-map (Covered m.steps) (Covered one.1.steps) xs (λ y c over. first.stays y.id (c over))
        h.1 in
    let rest = cancel_steps-CancelsAll now actor reason xs one.1 covered in
    rw (first.returns) (record {
      loop = record {
        returns = rest.loop.returns;
        run = rest.loop.run ∙ first.run;
        stays = λ id k. rest.loop.stays id (first.stays id k);
      };
      over = (rest.loop.stays x.id (cancel_step-IsOver now actor reason x m h.0), rest.over);
    })

-- What cancelling promises of an open run.
abbrev pub Cancelled : Mission → Result (Unit {0}) × Mission → Type 0
Cancelled m outcome =
    (outcome.0 ≡ ok tt)
    × (outcome.1.run.status ≡ AgentRunStatus.cancelled)
    × (outcome.1.run.cancel_requested ≡ true)
    × (outcome.1.run.lease_owner ≡ none)
    × All (λ x. IsOver x.id outcome.1.steps) (run_steps m.run.id m.steps)

cancel_open_run-Cancelled :
    (now : Instant) (actor reason : String) (m : Mission)
    → contains m.run.status terminal_run_statuses ≡ false
    → All (IsCurrent m.steps) (run_steps m.run.id m.steps)
    → Cancelled m (cancel_open_run now actor reason m)
unfolding cancel_open_run
cancel_open_run-Cancelled now actor reason m open_run h =
    let asked = write_run (record (m.run) { cancel_requested = true }) m in
    let xs = run_steps m.run.id m.steps in
    let covered =
      All-map (IsCurrent m.steps) (Covered m.steps) xs
        (λ x e over s e'.
          subst (λ (t : AgentRunStep). is_terminal t.status ≡ true)
            (some-injective x s (sym e ∙ e')) over)
        h in
    let c = cancel_steps-CancelsAll now actor reason xs asked covered in
    let m₁ = (cancel_steps now actor reason xs asked).1 in
    let can : CanMoveRun m₁.run.status AgentRunStatus.cancelled =
      rw c.loop.run (can_cancel_run m.run.status open_run) in
    let entered = enter_run_lem now AgentRunStatus.cancelled reason m₁.run in
    let flag : m₁.run.cancel_requested ≡ true = rw c.loop.run refl in
    rw (c.loop.returns, move_run-legal now AgentRunStatus.cancelled reason m₁ can)
      (refl, entered.status, entered.cancelled ∙ flag, entered.unowned refl, c.over)

cancel-open :
    (now : Instant) (actor reason : String) (m : Mission)
    → contains m.run.status terminal_run_statuses ≡ false
    → cancel_agent_run now actor reason m ≡ cancel_open_run now actor reason m
unfolding cancel_agent_run
cancel-open now actor reason m h = ground arith

-- Cancelling a run that is not in a terminal status never raises: the run becomes CANCELLED and
-- gives up its lease, and whatever the store then holds under the id of one of the run's steps is in
-- a terminal status. (The second hypothesis says that the store is keyed by the ids.)
pub cancel_agent_run-Cancelled :
    (now : Instant) (actor reason : String) (m : Mission)
    → contains m.run.status terminal_run_statuses ≡ false
    → All (IsCurrent m.steps) (run_steps m.run.id m.steps)
    → Cancelled m (cancel_agent_run now actor reason m)
cancel_agent_run-Cancelled now actor reason m open_run h =
    subst (Cancelled m) (sym (cancel-open now actor reason m open_run))
      (cancel_open_run-Cancelled now actor reason m open_run h)
