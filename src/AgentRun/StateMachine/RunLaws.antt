-- ===== src/AgentRun/StateMachine/RunLaws.antt =====
-- Calls and sequences of calls of `transition_run` (agent_run_state_machine.py).
use aixion_control_tower.Prelude.{
  Bool, true, false, ◌≡◌, ◌≢◌, ◌⊎◌, ◌∙◌, refl, none, String, arith, contains, is_some, eq_iff,
}
use aixion_control_tower.Prelude.Exec.{ok, err, illegal_transition}
use aixion_control_tower.AgentRun.Models.{Instant, AgentRunStatus, AgentRun, run_status_eq}
use aixion_control_tower.AgentRun.StateMachine.Runs.{
  terminal_run_statuses, run_transitions, transition_run,
}

abbrev pub is_terminal : AgentRunStatus → Bool
is_terminal s = contains s terminal_run_statuses

-- One call of `transition_run`, whether it changes the run or raises.
pub data RunMove : AgentRun → AgentRun → Type 0 where
  move :
      (now : Instant) (target : AgentRunStatus) (reason : String) (run : AgentRun)
      → RunMove run (transition_run now target reason run).1

pub data RunMoves (start : AgentRun) : AgentRun → Type 0 where
  here : RunMoves start start
  then : {mid end : AgentRun} → RunMoves start mid → RunMove mid end → RunMoves start end

-- A terminal run holds no lease and has its completion time.
pub record IsClosed (run : AgentRun) : Type 0 where
  pub completed : is_terminal run.status ≡ true → is_some run.completed_at ≡ true
  pub unowned : is_terminal run.status ≡ true → run.lease_owner ≡ none
  pub untokened : is_terminal run.status ≡ true → run.lease_token ≡ none
  pub unleased : is_terminal run.status ≡ true → run.lease_expires_at ≡ none

no_way_out :
    (s t : AgentRunStatus)
    → contains s terminal_run_statuses ≡ true
    → contains t (run_transitions s) ≡ false
no_way_out AgentRunStatus.blocked t h = refl
no_way_out AgentRunStatus.succeeded t h = refl
no_way_out AgentRunStatus.failed t h = refl
no_way_out AgentRunStatus.cancelled t h = refl
no_way_out s t h = ground arith

transition_run-terminal :
    (now : Instant) (t : AgentRunStatus) (reason : String) (run : AgentRun)
    → contains run.status terminal_run_statuses ≡ true
    → (transition_run now t reason run).1 ≡ run
unfolding transition_run
transition_run-terminal now t reason run h = ground (arith, no_way_out run.status t h)

transition_run-IsClosed :
    (now : Instant) (t : AgentRunStatus) (reason : String) (run : AgentRun)
    → IsClosed run
    → IsClosed (transition_run now t reason run).1
unfolding transition_run
transition_run-IsClosed now t reason run h = ground arith

run_moves-IsClosed_step : {a b : AgentRun} → RunMove a b → IsClosed a → IsClosed b
run_moves-IsClosed_step (move now t reason run) h = transition_run-IsClosed now t reason run h

-- However often `transition_run` is called, and whatever it refuses, a run that starts closed
-- (terminal only with a completion time and no lease) stays so.
pub RunMoves-IsClosed : {a b : AgentRun} → RunMoves a b → IsClosed a → IsClosed b
RunMoves-IsClosed here h = h
RunMoves-IsClosed (then r m) h = run_moves-IsClosed_step m (RunMoves-IsClosed r h)

RunMove-terminal : {a b : AgentRun} → RunMove a b → is_terminal a.status ≡ true → b ≡ a
RunMove-terminal (move now t reason run) h = transition_run-terminal now t reason run h

-- No sequence of calls of `transition_run` changes anything of a run in a terminal status.
pub RunMoves-terminal : {a b : AgentRun} → is_terminal a.status ≡ true → RunMoves a b → b ≡ a
RunMoves-terminal h here = refl
RunMoves-terminal {a} h (then {mid} r m) =
    let same : mid ≡ a = RunMoves-terminal h r in RunMove-terminal m (rw same h) ∙ same

-- `transition_run` returns exactly when the target is the present status or follows it in the
-- table; then the run has the target status, else it raises and leaves the run as it was.
pub transition_run_lem :
    (now : Instant) (t : AgentRunStatus) (reason : String) (run : AgentRun)
    → let (r, run') = transition_run now t reason run in
      ((r ≡ ok (run.status, t))
        × (run'.status ≡ t)
        × ((t ≡ run.status) ⊎ (contains t (run_transitions run.status) ≡ true)))
      ⊎ ((r ≡ err illegal_transition)
          × (run' ≡ run)
          × (t ≢ run.status)
          × (contains t (run_transitions run.status) ≡ false))
unfolding transition_run
transition_run_lem now t reason run = ground (arith, eq_iff t run.status)
