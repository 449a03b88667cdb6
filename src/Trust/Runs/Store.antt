-- ===== src/Trust/Runs/Store.antt =====
-- Runs, steps and run events in the trust plane's store: transition_run and transition_step on them,
-- and _append_run_event of agent_run_trust.py. The message and the metadata of an event are left out.
use aixion_control_tower.Prelude.{Option, none, some, [], ◌∷◌, ◌++◌, String}
use aixion_control_tower.Prelude.Exec.{Exec, Result, ok, err}
use aixion_control_tower.Prelude.Dict.{put}
use aixion_control_tower.AgentRun.Models.{
  Instant, AgentRun, AgentRunStatus, AgentRunStep, AgentRunStepStatus, AgentRunEventType,
}
use aixion_control_tower.AgentRun.StateMachine.Runs.{transition_run}
use aixion_control_tower.AgentRun.StateMachine.Steps.{transition_step}
use aixion_control_tower.AgentRun.Supervisor.State.{run_keyed, step_keyed}
use aixion_control_tower.Trust.State.{TrustStore}

abbrev pub put_run : AgentRun → TrustStore → TrustStore
put_run run store = record store { runs = put run store.runs }

abbrev pub put_step : AgentRunStep → TrustStore → TrustStore
put_step step store = record store { steps = put step store.steps }

abbrev pub keep_moved_step :
    Result (AgentRunStepStatus × AgentRunStepStatus) × AgentRunStep → Exec TrustStore AgentRunStep
keep_moved_step (ok _, step) store = (ok step, put_step step store)
keep_moved_step (err e, _) store = (err e, store)

-- `transition_step` on a step of the store; the step comes back as it then stands.
unfoldable pub shift_step :
    Instant → AgentRunStepStatus → String → AgentRunStep → Exec TrustStore AgentRunStep
unfolding transition_step
shift_step now target reason step store =
    keep_moved_step (transition_step now target reason step) store

abbrev pub keep_moved_run :
    Result (AgentRunStatus × AgentRunStatus) × AgentRun → Exec TrustStore AgentRun
keep_moved_run (ok _, run) store = (ok run, put_run run store)
keep_moved_run (err e, _) store = (err e, store)

-- `transition_run` on a run of the store.
unfoldable pub shift_run : Instant → AgentRunStatus → String → AgentRun → Exec TrustStore AgentRun
unfolding transition_run
shift_run now target reason run store = keep_moved_run (transition_run now target reason run) store

-- `_append_run_event`
unfoldable pub append_run_event :
    AgentRun
    → Option AgentRunStep
    → AgentRunEventType
    → String
    → String
    → Exec TrustStore (Unit {0})
append_run_event run step event_type reason actor store = (
  ok tt,
  record store {
    run_events =
        store.run_events
        ++ record {
          run_id = run.id;
          step_id = elim step [ none ↦ none | some s ↦ some s.id ];
          event_type = event_type;
          previous_status = none;
          new_status = none;
          reason = reason;
          actor = actor;
          attempt_number = elim step [ none ↦ none | some s ↦ some s.attempt_count ];
          output_evidence_hash = none;
        }
          ∷ [];
  },
)
