-- ===== src/AgentRun/Faults.antt =====
-- backend/app/agent_run_faults.py: injected faults, which are used up one delivery at a time.
use aixion_control_tower.Prelude.{
  ℕ, ◌-◌, Bool, true, false, ◌&&◌, Option, none, some, List, [], ◌∷◌, String, ◌==◌, option_eq,
  string_eq, ltb, leb, if◌then◌else◌, keep, truthy,
}
use aixion_control_tower.Prelude.Dict.{Keyed, put}
use aixion_control_tower.AgentRun.Models.{Instant, AgentRunStepType, step_type_eq}

pub data AgentRunFaultKind : Type 0 where
  worker_crash github_timeout duplicate_callback lost_acknowledgement validation_timeout
        invalid_agent_output stale_lease database_disconnect container_failure
        forbidden_file_mutation :
      AgentRunFaultKind

-- `AgentRunFaultConfig`
pub record AgentRunFaultConfig : Type 0 where
  pub id : String
  pub run_id : Option String
  pub step_type : Option AgentRunStepType
  pub fault_kind : AgentRunFaultKind
  pub enabled : Bool
  pub remaining_uses : ℕ
  pub message : String
  pub created_at : Instant

instance abbrev pub fault_keyed : Keyed AgentRunFaultConfig
fault_keyed = record { key = λ f. f.id }

-- `field is None or field == value`
abbrev pub matches_run : Option String → String → Bool
matches_run none run_id = true
matches_run (some r) run_id = r == run_id

abbrev pub matches_type : Option AgentRunStepType → AgentRunStepType → Bool
matches_type none step_type = true
matches_type (some t) step_type = t == step_type

abbrev pub is_candidate : String → AgentRunStepType → AgentRunFaultConfig → Bool
is_candidate run_id step_type fault =
    fault.enabled
    && ltb 0 fault.remaining_uses
    && matches_run fault.run_id run_id
    && matches_type fault.step_type step_type

-- `sorted(candidates, key=created_at)[0]`: the first of the oldest
abbrev pub oldest : List AgentRunFaultConfig → Option AgentRunFaultConfig
oldest [] = none
oldest (f ∷ fs) = elim (oldest fs) [
  | none ↦ some f
  | some g ↦ if leb f.created_at g.created_at then some f else some g
]

unfoldable pub matching_fault :
    String → AgentRunStepType → List AgentRunFaultConfig → Option AgentRunFaultConfig
matching_fault run_id step_type faults = oldest (keep (is_candidate run_id step_type) faults)

-- One use of a fault.
abbrev pub use_up : AgentRunFaultConfig → AgentRunFaultConfig
use_up fault =
    let used = record fault { remaining_uses = fault.remaining_uses - 1 } in
    if leb used.remaining_uses 0 then record used { enabled = false } else used

abbrev pub consume_found :
    Option AgentRunFaultConfig
    → List AgentRunFaultConfig
    → Option AgentRunFaultConfig × List AgentRunFaultConfig
consume_found none faults = (none, faults)
consume_found (some fault) faults = (some (use_up fault), put (use_up fault) faults)

-- `consume_fault`, which returns the fault that it has used up
unfoldable pub consume_fault :
    String
    → AgentRunStepType
    → List AgentRunFaultConfig
    → Option AgentRunFaultConfig × List AgentRunFaultConfig
unfolding matching_fault
consume_fault run_id step_type faults =
    consume_found (matching_fault run_id step_type faults) faults

unfoldable pub default_fault_reason : AgentRunFaultKind → String
default_fault_reason AgentRunFaultKind.worker_crash = "Worker lost during execution; lease expired."
default_fault_reason AgentRunFaultKind.github_timeout = "GitHub request timed out temporarily."
default_fault_reason AgentRunFaultKind.duplicate_callback =
    "Duplicate callback delivered for the same idempotency key."
default_fault_reason AgentRunFaultKind.lost_acknowledgement =
    "Lost acknowledgement after a possible side effect; manual reconciliation required."
default_fault_reason AgentRunFaultKind.validation_timeout = "Validation timed out."
default_fault_reason AgentRunFaultKind.invalid_agent_output =
    "Invalid agent output requires revision."
default_fault_reason AgentRunFaultKind.stale_lease = "Worker lease expired before completion."
default_fault_reason AgentRunFaultKind.database_disconnect =
    "Database connection temporarily unavailable."
default_fault_reason AgentRunFaultKind.container_failure =
    "Container startup temporarily unavailable."
default_fault_reason AgentRunFaultKind.forbidden_file_mutation =
    "Forbidden file mutation outside approved scope."

-- `error.fault.message or default_fault_reason(error.fault.fault_kind)`
unfoldable pub fault_reason : AgentRunFaultConfig → String
unfolding default_fault_reason
fault_reason fault =
    if truthy fault.message then fault.message else default_fault_reason fault.fault_kind

-- `fault_kind.value`
unfoldable pub kind_value : AgentRunFaultKind → String
kind_value AgentRunFaultKind.worker_crash = "WORKER_CRASH"
kind_value AgentRunFaultKind.github_timeout = "GITHUB_TIMEOUT"
kind_value AgentRunFaultKind.duplicate_callback = "DUPLICATE_CALLBACK"
kind_value AgentRunFaultKind.lost_acknowledgement = "LOST_ACKNOWLEDGEMENT"
kind_value AgentRunFaultKind.validation_timeout = "VALIDATION_TIMEOUT"
kind_value AgentRunFaultKind.invalid_agent_output = "INVALID_AGENT_OUTPUT"
kind_value AgentRunFaultKind.stale_lease = "STALE_LEASE"
kind_value AgentRunFaultKind.database_disconnect = "DATABASE_DISCONNECT"
kind_value AgentRunFaultKind.container_failure = "CONTAINER_FAILURE"
kind_value AgentRunFaultKind.forbidden_file_mutation = "FORBIDDEN_FILE_MUTATION"

-- `fault_kind.value.replace("_", " ").title()`
unfoldable pub kind_title : AgentRunFaultKind → String
kind_title AgentRunFaultKind.worker_crash = "Worker Crash"
kind_title AgentRunFaultKind.github_timeout = "Github Timeout"
kind_title AgentRunFaultKind.duplicate_callback = "Duplicate Callback"
kind_title AgentRunFaultKind.lost_acknowledgement = "Lost Acknowledgement"
kind_title AgentRunFaultKind.validation_timeout = "Validation Timeout"
kind_title AgentRunFaultKind.invalid_agent_output = "Invalid Agent Output"
kind_title AgentRunFaultKind.stale_lease = "Stale Lease"
kind_title AgentRunFaultKind.database_disconnect = "Database Disconnect"
kind_title AgentRunFaultKind.container_failure = "Container Failure"
kind_title AgentRunFaultKind.forbidden_file_mutation = "Forbidden File Mutation"

-- The text of the exception `InjectedAgentRunFault`.
unfoldable pub fault_text : AgentRunFaultConfig → String
unfolding kind_title
fault_text fault = if truthy fault.message then fault.message else kind_title fault.fault_kind
