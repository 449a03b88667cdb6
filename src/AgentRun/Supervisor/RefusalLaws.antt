-- ===== src/AgentRun/Supervisor/RefusalLaws.antt =====
-- The refusals at the head of `execute_next_step` of agent_run_supervisor.py.
use aixion_control_tower.Prelude.{
  ℕ, ◌≡◌, ◌⊎◌, refl, Bool, true, false, String, arith, contains, All, Bool-cases, inl, inr, sym,
  eq_iff, none, if◌then◌else◌,
}
use aixion_control_tower.Prelude.Exec.{Result, err, conflict, raise, ◌>>◌}
use mathlib.Core.Path.{subst}
use aixion_control_tower.AgentRun.Supervisor.Control.{cancel_agent_run}
use aixion_control_tower.AgentRun.Models.{
  AgentRunStatus, AgentRunStepExecutionResult, run_status_eq,
}
use aixion_control_tower.AgentRun.StateMachine.Runs.{terminal_run_statuses}
use aixion_control_tower.AgentRun.Supervisor.State.{Mission, run_steps}
use aixion_control_tower.AgentRun.Supervisor.Execute.{Environment, refuses, execute_next_step}
use aixion_control_tower.AgentRun.Supervisor.CancelLaws.{
  IsCurrent, IsOver, cancel_agent_run-Cancelled,
}

-- The run is terminal, or paused, or asked to pause.
abbrev pub MustStand : Mission → Type 0
MustStand m =
    (contains m.run.status terminal_run_statuses ≡ true)
    ⊎ ((m.run.pause_requested ≡ true) ⊎ (m.run.status ≡ AgentRunStatus.paused))

-- The run was asked to cancel and may move; it is CANCELLED, gives up its lease, and none of its steps
-- is left open.
pub record Completed (m m' : Mission) : Type 0 where
  pub asked : m.run.cancel_requested ≡ true
  pub moves : ¬ MustStand m
  pub run_status : m'.run.status ≡ AgentRunStatus.cancelled
  pub unowned : m'.run.lease_owner ≡ none
  pub over : All (λ x. IsOver x.id m'.steps) (run_steps m.run.id m.steps)

-- Nothing has happened to a run that must stand, or the cancellation that was asked for has.
abbrev pub Refused : Mission → Result AgentRunStepExecutionResult × Mission → Type 0
Refused m outcome =
    (outcome.0 ≡ err conflict) × ((MustStand m × (outcome.1 ≡ m)) ⊎ Completed m outcome.1)

refuses-MustStand : (m : Mission) → refuses m ≡ true → MustStand m
refuses-MustStand m h = elim (Bool-cases (contains m.run.status terminal_run_statuses)) [
  | inl over ↦ inl over
  | inr going ↦ elim (Bool-cases m.run.pause_requested) [
    | inl asked ↦ inr (inl asked)
    | inr unasked ↦
        inr (inr (ground (arith, h, going, unasked, eq_iff m.run.status AgentRunStatus.paused)))
  ]
]

MustStand-refuses : (m : Mission) → MustStand m → refuses m ≡ true
MustStand-refuses m (inl over) = ground (arith, over)
MustStand-refuses m (inr (inl asked)) = ground (arith, asked)
MustStand-refuses m (inr (inr paused)) =
    ground (arith, paused, eq_iff m.run.status AgentRunStatus.paused)

not_refused :
    (m : Mission) → refuses m ≡ false → contains m.run.status terminal_run_statuses ≡ false
not_refused m h = ground arith

refused_head :
    (env : Environment) (worker_id : String) (lease_seconds timeout : ℕ) (m : Mission)
    → refuses m ≡ true
    → execute_next_step env worker_id lease_seconds timeout m ≡ (err conflict, m)
unfolding execute_next_step
refused_head env worker_id lease_seconds timeout m h = ground arith

choose :
    {A : Type 0} (a b : Bool) (x y z : A)
    → a ≡ false
    → b ≡ true
    → (if a then x else if b then y else z) ≡ y
choose a b x y z h k = ground arith

cancelled_head :
    (env : Environment) (worker_id : String) (lease_seconds timeout : ℕ) (m : Mission)
    → refuses m ≡ false
    → m.run.cancel_requested ≡ true
    → execute_next_step env worker_id lease_seconds timeout m
      ≡ (cancel_agent_run env.before worker_id "Cancellation was already requested."
            >> raise conflict)
          m
unfolding execute_next_step
cancelled_head env worker_id lease_seconds timeout m h asked =
    choose (refuses m) m.run.cancel_requested _ _ _ h asked

-- On a run that is terminal, paused or asked to pause or to cancel, `execute_next_step` raises
-- AgentRunConflict. If the run is terminal, paused or asked to pause, nothing changes; else it was asked
-- to cancel, and the call completes the cancellation: no step of the run is left open, let alone started.
-- (The last hypothesis says that the store is keyed by the ids.)
pub execute_next_step-Refused :
    (env : Environment) (worker_id : String) (lease_seconds timeout : ℕ) (m : Mission)
    → MustStand m ⊎ (m.run.cancel_requested ≡ true)
    → All (IsCurrent m.steps) (run_steps m.run.id m.steps)
    → Refused m (execute_next_step env worker_id lease_seconds timeout m)
execute_next_step-Refused env worker_id lease_seconds timeout m why keyed =
    elim (Bool-cases (refuses m)) [
      | inl refused ↦
          subst (Refused m) (sym (refused_head env worker_id lease_seconds timeout m refused))
            (refl, inl (refuses-MustStand m refused, refl))
      | inr proceeds ↦
          let moves : ¬ MustStand m = λ stands.
            let refused = MustStand-refuses m stands in ground (arith, refused, proceeds) in
          let asked : m.run.cancel_requested ≡ true = elim why [
            | inl stands ↦ absurd (moves stands)
            | inr asked ↦ asked
          ] in
          let c =
            cancel_agent_run-Cancelled env.before worker_id "Cancellation was already requested." m
              (not_refused m proceeds) keyed in
          let completed : Completed m
              (cancel_agent_run env.before worker_id "Cancellation was already requested." m).1 =
            record { asked = asked; moves = moves; run_status = c.1; unowned = c.3; over = c.4 } in
          subst (Refused m)
            (sym (cancelled_head env worker_id lease_seconds timeout m proceeds asked))
            (rw c.0 (refl, inr completed))
    ]
