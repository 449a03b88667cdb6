-- ===== src/Connectors/Tests.antt =====
-- The webhook's checks at concrete requests.
use aixion_control_tower.Prelude.{◌≡◌, ◌≤◌, refl, none, some, [], ◌∷◌, max, arith}
use aixion_control_tower.Connectors.Webhook.{
  WebhookError, Connector, assert_hmac_v1_not_replayed, enforce_connector_rate_limit,
}
use aixion_control_tower.Connectors.RateLimit.{passed_count, passed_count-window}
use aixion_control_tower.Connectors.Replay.{use_each, assert_hmac_v1_not_replayed-refused}

abbrev slow_connector : Connector
slow_connector = record {
  id = "connector_1";
  rate_limit_per_minute = 2;
  rate_limit_window_started_at = none;
  rate_limit_request_count = 0;
  hmac_nonce_history = record { nonce = "old"; seen_at = 100 } ∷ [];
  updated_at = 0;
  audits = [];
}

passed_of_four : passed_count (5 ∷ 6 ∷ 7 ∷ 8 ∷ []) slow_connector ≡ 2
unfolding enforce_connector_rate_limit
passed_of_four = refl

passed_count-window_example : passed_count (5 ∷ 6 ∷ 7 ∷ 8 ∷ []) slow_connector ≤ max 2 1
passed_count-window_example =
    passed_count-window 5 (6 ∷ 7 ∷ 8 ∷ []) slow_connector refl
      (omega arith, (omega arith, (omega arith, tt)))

assert_hmac_v1_not_replayed-refused_example :
    (assert_hmac_v1_not_replayed 1300 9 "n1" (
      use_each
        (record { epoch = 800; at = 8; nonce = "n2" } ∷ [])
        (assert_hmac_v1_not_replayed 750 7 "n1" slow_connector).1)).0
    ≡ some WebhookError.nonce_used
unfolding assert_hmac_v1_not_replayed
assert_hmac_v1_not_replayed-refused_example =
    assert_hmac_v1_not_replayed-refused 750 7 "n1" slow_connector
      (record { epoch = 800; at = 8; nonce = "n2" } ∷ [])
      (record { epoch = 1300; at = 9; nonce = "n1" }) refl (omega arith) (omega arith, tt)
      (omega arith)
