-- ===== src/Lib.antt =====
-- Verification of the backend of the control tower (backend/app), which lets AI agents change
-- repositories under approval: an approved task becomes a durable run of seven steps, workers take a
-- lease on the run and execute step after step, every result is classified, and a hash-chained flight
-- recorder keeps the events of the trust plane.
--
-- The parts and their files:
--
--   AgentRun/Models        backend/app/agent_run_models.py: statuses, runs, steps, events, results.
--   AgentRun/StateMachine  backend/app/agent_run_state_machine.py: Runs (RUN_TRANSITIONS,
--                          transition_run), Steps (STEP_TRANSITIONS, transition_step) and Derive
--                          (derive_run_status); RunLaws, StepLaws and DeriveLaws are about them.
--   AgentRun/Verifier      backend/app/agent_run_verifier.py: classify_execution_result and
--                          validate_scope_contract; Laws and Scope are about them.
--   AgentRun/Faults        backend/app/agent_run_faults.py: matching_fault and consume_fault.
--   AgentRun/Supervisor    backend/app/agent_run_supervisor.py: State (_run_steps, _append_event),
--                          Leases (acquire_run_lease, heartbeat_run, release_run_lease), Select
--                          (_ready_step, _next_pending_step), Apply (_apply_execution_result),
--                          Execute (execute_next_step), Control (pause, resume, cancel, retry,
--                          recompute_run_status) and Recover (one round of recover_stale_leases).
--   Trust/FlightRecorder   backend/app/trust_flight_recorder.py: append_trust_event and
--                          verify_flight_recorder, in Chain; ChainLaws and History are about them.
--   Trust/Models, Leases   backend/app/trust_models.py: enumerations, scopes, leases, actions.
--   Trust/Policy           backend/app/trust_policy.py: Paths (_clean_path, _path_allowed,
--                          _command_allowed, _domain_allowed) and Evaluate
--                          (evaluate_proposed_action); Within, PathLaws and AllowLaws are about them.
--   Approvals              backend/app/approval_lifecycle.py: can_transition, dashboard_bucket_for
--                          and grouped_approvals, in Lifecycle; LifecycleLaws is about them.
--   Trust/State, Records   the store of the trust plane, its records (backend/app/trust_models.py) and
--                          what comes from outside: hashes, signatures, ids, tokens.
--   Trust/Service          backend/app/trust_service.py: Reviews (record_reviewer_attestation), Issue
--                          (issue_capability_lease), Lifecycle (refresh_lease_status,
--                          revoke_capability_lease, evaluate_gateway_action); trust_consumption.py and
--                          trust_decisions.py: Consume; trust_credentials.py and
--                          issue_credential_grant: Credentials. Moves and Writes reduce the operations
--                          to a few kinds of write, Covered and Sound are the invariant over these,
--                          Reach the calls in any order; Sanction, IssueLaws, ConsumeLaws,
--                          Charge and Introspect are about the operations.
--   Trust/Runs             where trust meets runs. Authorize: trust_action_authorization.py; Attach:
--                          attach_capability_lease of agent_run_trust.py, trust_run_capability.py;
--                          Actions and StepTrust: authorize_run_step and consume_run_step_actions of
--                          agent_run_trust.py. Keeps, AuthorizeLaws, Bound, Shares and StepTrustLaws
--                          are about them.
--   Tasks                  Claims: backend/app/agent_worker_claims.py; Operator:
--                          agent_task_retry.py, agent_task_cancel.py and their two routes in
--                          agent_task_routes.py; ClaimLaws and OperatorLaws are about them.
--   Mcp                    backend/app/mcp_gateway.py: Models, Gateway (a decision on a pending call)
--                          and Submit (a call that arrives); GatewayLaws and DeadLetters are about
--                          them. Approvals/Integrity: backend/app/approval_integrity.py.
--   Risk                   backend/app/risk_engine.py: Engine; EngineLaws is about it.
--   Connectors             backend/app/connector_webhook.py: the rate limit and the replay check, in
--                          Webhook; RateLimit and Replay are about them.
--   Prelude                Python's truth values, `in`, dicts, sorted, text methods, and exceptions.
--
-- A call of the supervisor is a function of a Mission, the run beside the parts of the store that the
-- call may touch. It returns a result or an error together with the Mission, since what Python wrote
-- before a raise stays written. A datetime is a number of microseconds; the clock, fresh tokens and
-- ids, SHA-256 and the step executor are parameters. Loops are structural recursion over the lists
-- they run through, so that no fuel is needed. Text methods act on code points, with the ASCII part
-- of `lower` and the white space below 256.
--
-- Bounds: money is a natural number where the source has a float, and other integers are natural
-- numbers, as the validated fields of the source are; no machine width is involved. The wordings of
-- policy reasons and of verification failures are values of data types.
--
-- A call of the trust plane is a function of a TrustStore in the same way. It reads the clock once, but
-- for issue_credential_grant, which checks against one reading and writes from a later one. The ids, nonces and tokens that it draws are those of a number that is counted up; a theorem that needs
-- ids to differ says so (DistinctIds). Hashes and signatures are functions of the record that they
-- cover, so that a signature is compared as the source compares it.
--
-- Not modelled: persistence in SQLite, HTTP routes but two, the field validators of the request models,
-- the default step executor (GitHub, subprocesses and containers), create_agent_run, the loop of
-- recover_stale_leases over all runs, the fixed message texts and metadata of events, the obligations
-- of decisions, float metrics and scorecards, consume_gateway_action, which nothing calls, and the rest
-- of backend/app: worker plans, accounts, the rest of the connectors, the MCP routes and transport,
-- reports and demo data.
pub mod Prelude
pub mod AgentRun
pub mod Approvals
pub mod Connectors
pub mod Mcp
pub mod Risk
pub mod Tasks
pub mod Trust
