-- ===== src/Connectors/Webhook.antt =====
-- backend/app/connector_webhook.py: `_enforce_connector_rate_limit`, `_clean_hmac_nonce_history` and
-- `_assert_hmac_v1_not_replayed`. The entries of `config` are fields that hold what this code wrote.
use aixion_control_tower.Prelude.{
  ℕ, ◌+◌, ◌-◌, ◌*◌, Bool, true, Option, none, some, List, [], ◌∷◌, ◌++◌, String, is_some, keep, leb,
  ltb, length, if◌then◌else◌,
}
use aixion_control_tower.Prelude.Dict.{Keyed, get, put}
use aixion_control_tower.Prelude.Sort.{sort_by}
use aixion_control_tower.AgentRun.Models.{Instant, second}

-- The HTTP errors of the two checks.
pub data WebhookError : Type 0 where
  rate_limited nonce_used : WebhookError

-- An entry of `hmac_nonce_history`; the time is in seconds.
pub record SeenNonce : Type 0 where
  pub nonce : String
  pub seen_at : ℕ

instance abbrev pub seen_nonce_keyed : Keyed SeenNonce
seen_nonce_keyed = record { key = λ s. s.nonce }

-- What the checks touch of an `AgentConnector`, and the audit events.
pub record Connector : Type 0 where
  pub id : String
  pub rate_limit_per_minute : ℕ
  pub rate_limit_window_started_at : Option Instant
  pub rate_limit_request_count : ℕ
  pub hmac_nonce_history : List SeenNonce
  pub updated_at : Instant
  pub audits : List String

-- `CONNECTOR_RATE_LIMIT_WINDOW`
abbrev pub connector_rate_limit_window : ℕ
connector_rate_limit_window = 60 * second

-- `HMAC_NONCE_TTL_SECONDS`
abbrev pub hmac_nonce_ttl_seconds : ℕ
hmac_nonce_ttl_seconds = 600

-- `HMAC_MAX_TRACKED_NONCES`
abbrev pub hmac_max_tracked_nonces : ℕ
hmac_max_tracked_nonces = 200

abbrev pub is_window_over : Instant → Option Instant → Bool
is_window_over now none = true
is_window_over now (some started) = leb (started + connector_rate_limit_window) now

-- `_enforce_connector_rate_limit`
unfoldable pub enforce_connector_rate_limit : Instant → Connector → Option WebhookError × Connector
enforce_connector_rate_limit now c =
    if is_window_over now c.rate_limit_window_started_at
    then (
      none,
      record c {
        rate_limit_window_started_at = some now;
        rate_limit_request_count = 1;
        updated_at = now;
      },
    )
    else if leb c.rate_limit_per_minute c.rate_limit_request_count
    then (
      some WebhookError.rate_limited,
      record c {
        rate_limit_request_count = c.rate_limit_request_count + 1;
        updated_at = now;
        audits = c.audits ++ "connector.webhook_rate_limited" ∷ [];
      },
    )
    else (
      none,
      record c { rate_limit_request_count = c.rate_limit_request_count + 1; updated_at = now },
    )

abbrev pub skip : {A : Type 0} → ℕ → List A → List A
skip n [] = []
skip n (x ∷ xs) = let rest = skip (n - 1) xs in if leb 1 n then rest else x ∷ xs

-- `entries[-n:]`
abbrev pub last_entries : {A : Type 0} → ℕ → List A → List A
last_entries n entries = skip (length entries - n) entries

abbrev pub is_recent : ℕ → SeenNonce → Bool
is_recent now_epoch seen = leb (now_epoch - seen.seen_at) hmac_nonce_ttl_seconds

abbrev pub trim_history : List SeenNonce → List SeenNonce
trim_history cleaned =
    if ltb hmac_max_tracked_nonces (length cleaned)
    then last_entries hmac_max_tracked_nonces (sort_by (λ s. s.seen_at) cleaned)
    else cleaned

-- `_clean_hmac_nonce_history`
abbrev pub clean_hmac_nonce_history : ℕ → List SeenNonce → List SeenNonce
clean_hmac_nonce_history now_epoch history = trim_history (keep (is_recent now_epoch) history)

abbrev pub seen_before :
    List SeenNonce → ℕ → Instant → String → Connector → Option WebhookError × Connector
seen_before history now_epoch now nonce c =
    if is_some (get nonce history)
    then (some WebhookError.nonce_used, record c { hmac_nonce_history = history; updated_at = now })
    else (
      none,
      record c {
        hmac_nonce_history = put (record { nonce = nonce; seen_at = now_epoch }) history;
        updated_at = now;
      },
    )

-- `_assert_hmac_v1_not_replayed`
unfoldable pub assert_hmac_v1_not_replayed :
    ℕ → Instant → String → Connector → Option WebhookError × Connector
assert_hmac_v1_not_replayed now_epoch now nonce c =
    seen_before (clean_hmac_nonce_history now_epoch c.hmac_nonce_history) now_epoch now nonce c
