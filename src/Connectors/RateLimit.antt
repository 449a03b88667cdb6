-- ===== src/Connectors/RateLimit.antt =====
-- How many requests one window of the rate limit lets pass (backend/app/connector_webhook.py).
use aixion_control_tower.Prelude.{
  ◌++◌, ℕ, ◌+◌, ◌≡◌, ◌≤◌, ◌<◌, max, refl, true, false, some, List, [], ◌∷◌, arith, is_some, leb,
  All, Bool-cases, inl, inr, if◌then◌else◌,
}
use aixion_control_tower.AgentRun.Models.{Instant}
use aixion_control_tower.Connectors.Webhook.{
  Connector, connector_rate_limit_window, is_window_over, enforce_connector_rate_limit,
}

-- How many of the requests at these times pass.
abbrev pub passed_count : List Instant → Connector → ℕ
passed_count [] c = 0
passed_count (now ∷ rest) c =
    let (refused, after) = enforce_connector_rate_limit now c in
    (if is_some refused then 0 else 1) + passed_count rest after

within_window :
    (times : List Instant) (start : Instant) (c : Connector)
    → c.rate_limit_window_started_at ≡ some start
    → All (λ now. now < start + connector_rate_limit_window) times
    → passed_count times c + c.rate_limit_request_count
      ≤ max c.rate_limit_per_minute c.rate_limit_request_count
unfolding enforce_connector_rate_limit
within_window [] start c started inside = omega arith
within_window (now ∷ rest) start c started inside =
    let going : is_window_over now c.rate_limit_window_started_at ≡ false =
      rw started (ground (arith, inside.0)) in
    elim (Bool-cases (leb c.rate_limit_per_minute c.rate_limit_request_count)) [
      | inl full ↦
          let counted : Connector = record c {
            rate_limit_request_count = c.rate_limit_request_count + 1;
            updated_at = now;
            audits = c.audits ++ "connector.webhook_rate_limited" ∷ [];
          } in
          let later = within_window rest start counted started inside.1 in
          rw (going, full) (ground (arith, later, full))
      | inr free ↦
          let counted : Connector = record c {
            rate_limit_request_count = c.rate_limit_request_count + 1;
            updated_at = now;
          } in
          let later = within_window rest start counted started inside.1 in
          rw (going, free) (ground (arith, later, free))
    ]

-- From a request that opens a window on, the requests that pass until the window is over are no more
-- than the connector's limit, or one if the limit is zero, however many arrive.
pub passed_count-window :
    (start : Instant) (times : List Instant) (c : Connector)
    → is_window_over start c.rate_limit_window_started_at ≡ true
    → All (λ now. now < start + connector_rate_limit_window) times
    → passed_count (start ∷ times) c ≤ max c.rate_limit_per_minute 1
unfolding enforce_connector_rate_limit
passed_count-window start times c over inside =
    let opened : Connector = record c {
      rate_limit_window_started_at = some start;
      rate_limit_request_count = 1;
      updated_at = start;
    } in
    let later = within_window times start opened refl inside in rw over (omega (arith, later))
