-- ===== src/AgentRun/Supervisor/State.antt =====
-- The state that the supervisor works on, and its reads and writes of runs, steps, events and
-- audits (agent_run_supervisor.py, store.py).
use aixion_control_tower.Prelude.{
  Option, none, some, List, [], ◌∷◌, ◌++◌, String, ◌==◌, string_eq, leb, if◌then◌else◌, keep,
}
use aixion_control_tower.Prelude.Exec.{Result, ok, err, Exec}
use aixion_control_tower.Prelude.Dict.{Keyed, put}
use aixion_control_tower.AgentRun.Models.{
  Instant, AgentRunStatus, AgentRunStepStatus, AgentRun, AgentRunStep, AgentRunEventType,
  AgentRunEvent, StatusValue,
}
use aixion_control_tower.AgentRun.Faults.{AgentRunFaultConfig}
use aixion_control_tower.AgentRun.StateMachine.Runs.{transition_run}
use aixion_control_tower.AgentRun.StateMachine.Steps.{transition_step}

-- `AuditEvent`, without its details.
pub record AuditEvent : Type 0 where
  pub event_type : String
  pub entity_id : String
  pub actor : String

instance abbrev pub run_keyed : Keyed AgentRun
run_keyed = record { key = λ r. r.id }

instance abbrev pub step_keyed : Keyed AgentRunStep
step_keyed = record { key = λ s. s.id }

-- The run that a call works on, beside the parts of the store that the call may touch: the steps
-- of all runs, the events, the audit trail and the configured faults.
pub record Mission : Type 0 where
  pub run : AgentRun
  pub steps : List AgentRunStep
  pub events : List AgentRunEvent
  pub audits : List AuditEvent
  pub faults : List AgentRunFaultConfig

-- Insertion before the first larger sequence, so that sorting is stable as Python's is.
abbrev pub insert_step : AgentRunStep → List AgentRunStep → List AgentRunStep
insert_step s [] = s ∷ []
insert_step s (t ∷ ts) =
    let rest = insert_step s ts in if leb s.sequence t.sequence then s ∷ t ∷ ts else t ∷ rest

abbrev pub sort_steps : List AgentRunStep → List AgentRunStep
sort_steps [] = []
sort_steps (s ∷ ss) = insert_step s (sort_steps ss)

-- `_run_steps`
unfoldable pub run_steps : String → List AgentRunStep → List AgentRunStep
run_steps run_id steps = sort_steps (keep (λ step. step.run_id == run_id) steps)

-- `_append_event`; `step` gives the step's id and its attempt number.
abbrev pub append_event :
    AgentRunEventType
    → Option AgentRunStep
    → Option StatusValue
    → Option StatusValue
    → String
    → String
    → Option String
    → Mission
    → Mission
append_event event_type step previous new reason actor output_hash m = record m {
  events =
      m.events
      ++ record {
        run_id = m.run.id;
        step_id = elim step [ none ↦ none | some s ↦ some s.id ];
        event_type = event_type;
        previous_status = previous;
        new_status = new;
        reason = reason;
        actor = actor;
        attempt_number = elim step [ none ↦ none | some s ↦ some s.attempt_count ];
        output_evidence_hash = output_hash;
      }
        ∷ [];
}

-- `_audit`
abbrev pub audit : String → String → Mission → Mission
audit event_type actor m = record m {
  audits = m.audits ++ record { event_type = event_type; entity_id = m.run.id; actor = actor } ∷ [];
}

abbrev pub write_run : AgentRun → Mission → Mission
write_run run m = record m { run = run }

abbrev pub write_step : AgentRunStep → Mission → Mission
write_step step m = record m { steps = put step m.steps }

abbrev pub keep_step :
    Result (AgentRunStepStatus × AgentRunStepStatus) × AgentRunStep → Exec Mission AgentRunStep
keep_step (ok _, step) m = (ok step, write_step step m)
keep_step (err e, _) m = (err e, m)

-- `transition_step` on a step of the store; the step comes back as it then stands.
unfoldable pub move_step :
    Instant → AgentRunStepStatus → String → AgentRunStep → Exec Mission AgentRunStep
move_step now target reason step m = keep_step (transition_step now target reason step) m

abbrev pub keep_run : Result (AgentRunStatus × AgentRunStatus) × AgentRun → Exec Mission (Unit {0})
keep_run (ok _, run) m = (ok tt, write_run run m)
keep_run (err e, _) m = (err e, m)

-- `transition_run` on the run
unfoldable pub move_run : Instant → AgentRunStatus → String → Exec Mission (Unit {0})
move_run now target reason m = keep_run (transition_run now target reason m.run) m
