-- ===== src/AgentRun/Supervisor/Leases.antt =====
-- The run lease of agent_run_supervisor.py: `acquire_run_lease`, `heartbeat_run` and
-- `release_run_lease`. A call reads the clock once; a fresh token is an argument.
use aixion_control_tower.Prelude.{
  ℕ, ◌+◌, ◌*◌, Bool, false, ◌&&◌, ◌||◌, Option, none, some, String, ◌==◌, ◌!=◌, option_eq,
  string_eq, ltb, if◌then◌else◌, is_set, or_empty,
}
use aixion_control_tower.Prelude.Exec.{ok, err, conflict, Exec}
use aixion_control_tower.Prelude.Dict.{get}
use aixion_control_tower.AgentRun.Models.{
  Instant, second, AgentRun, AgentRunStep, AgentRunEventType,
}
use aixion_control_tower.AgentRun.Supervisor.State.{
  Mission, step_keyed, append_event, write_run, write_step,
}

-- `run.lease_owner and run.lease_expires_at and run.lease_expires_at > now`
abbrev pub expires_after : Option Instant → Instant → Bool
expires_after none now = false
expires_after (some t) now = ltb now t

abbrev pub is_leased : AgentRun → Instant → Bool
is_leased run now = is_set run.lease_owner && expires_after run.lease_expires_at now

abbrev pub grant_lease : String → ℕ → Instant → String → Mission → Mission
grant_lease worker_id lease_seconds now token m =
    append_event AgentRunEventType.run_lease_acquired none none none "" worker_id none (
      write_run
        (record (m.run) {
          lease_owner = some worker_id;
          lease_token = some token;
          heartbeat_at = some now;
          lease_expires_at = some (now + lease_seconds * second);
          updated_at = now;
        })
        m)

unfoldable pub acquire_run_lease : String → ℕ → Instant → String → Exec Mission String
acquire_run_lease worker_id lease_seconds now token m =
    if is_leased m.run now && (m.run.lease_owner != some worker_id)
    then (err conflict, m)
    else if is_leased m.run now && is_set m.run.lease_token
    then (ok (or_empty m.run.lease_token), m)
    else (ok token, grant_lease worker_id lease_seconds now token m)

-- `store.agent_run_steps.get(run.current_step_id or "")`
abbrev pub current_step : Mission → Option AgentRunStep
current_step m = get (or_empty m.run.current_step_id) m.steps

abbrev pub renew_step :
    String → String → Instant → Option Instant → Option AgentRunStep → Mission → Mission
renew_step worker_id lease_token now expiry none m = m
renew_step worker_id lease_token now expiry (some step) m =
    if (step.lease_owner == some worker_id) && (step.lease_token == some lease_token)
    then write_step
        (record step { heartbeat_at = some now; lease_expires_at = expiry; updated_at = now }) m
    else m

unfoldable pub heartbeat_run : String → String → ℕ → Instant → Exec Mission (Unit {0})
heartbeat_run worker_id lease_token lease_seconds now m =
    if (m.run.lease_owner != some worker_id) || (m.run.lease_token != some lease_token)
    then (err conflict, m)
    else let run = record (m.run) {
      heartbeat_at = some now;
      lease_expires_at = some (now + lease_seconds * second);
      updated_at = now;
    } in
      let renewed =
        renew_step worker_id lease_token now run.lease_expires_at (current_step m)
          (write_run run m) in
      (
        ok tt,
        append_event AgentRunEventType.run_heartbeat (current_step renewed) none none "" worker_id
            none renewed,
      )

unfoldable pub release_run_lease : String → Option String → Instant → Mission → Mission
release_run_lease worker_id lease_token now m =
    if is_set lease_token && (m.run.lease_token != lease_token)
    then m
    else append_event AgentRunEventType.run_lease_released none none none "" worker_id none (
        write_run
          (record (m.run) {
            lease_owner = none;
            lease_token = none;
            lease_expires_at = none;
            updated_at = now;
          })
          m)
