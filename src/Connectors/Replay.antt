-- ===== src/Connectors/Replay.antt =====
-- A nonce is accepted once (backend/app/connector_webhook.py).
use aixion_control_tower.Prelude.{
  ℕ, ◌+◌, ◌≡◌, ◌≤◌, refl, sym, Bool, true, false, Option, none, some, List, [], ◌∷◌, String, arith,
  is_some, keep, ltb, length, All, Bool-cases, inl, inr, string_eq, eq_iff,
}
use aixion_control_tower.Prelude.Dict.{get, put, get-put, get-put_self}
use mathlib.Core.Option.{none-ne-some}
use mathlib.Core.Path.{subst}
use aixion_control_tower.AgentRun.Models.{Instant}
use aixion_control_tower.Connectors.Webhook.{
  WebhookError, SeenNonce, seen_nonce_keyed, Connector, is_recent, hmac_nonce_ttl_seconds,
  hmac_max_tracked_nonces, clean_hmac_nonce_history, seen_before, assert_hmac_v1_not_replayed,
}

length-keep : (p : SeenNonce → Bool) (xs : List SeenNonce) → length (keep p xs) ≤ length xs
length-keep p [] = omega arith
length-keep p (x ∷ xs) = ground (arith, length-keep p xs)

length-put : (x : SeenNonce) (xs : List SeenNonce) → length (put x xs) ≤ length xs + 1
length-put x [] = omega arith
length-put x (y ∷ ys) = ground (arith, length-put x ys)

get-keep :
    (p : SeenNonce → Bool) (nonce : String) (xs : List SeenNonce) (s : SeenNonce)
    → get nonce xs ≡ some s
    → p s ≡ true
    → get nonce (keep p xs) ≡ some s
get-keep p nonce [] s h ok = h
get-keep p nonce (x ∷ xs) s h ok = ground (arith, get-keep p nonce xs s)

-- A history that is not too long only loses the entries that are too old.
clean-short :
    (now_epoch : ℕ) (history : List SeenNonce)
    → length history ≤ hmac_max_tracked_nonces
    → clean_hmac_nonce_history now_epoch history ≡ keep (is_recent now_epoch) history
clean-short now_epoch history short =
    let kept = length-keep (is_recent now_epoch) history in
    let whole : ltb hmac_max_tracked_nonces (length (keep (is_recent now_epoch) history)) ≡ false =
      ground (arith, kept, short) in
    rw whole refl

-- A later use of the webhook.
pub record Use : Type 0 where
  pub epoch : ℕ
  pub at : Instant
  pub nonce : String

abbrev pub use_webhook : Use → Connector → Option WebhookError × Connector
use_webhook u c = assert_hmac_v1_not_replayed u.epoch u.at u.nonce c

abbrev pub use_each : List Use → Connector → Connector
use_each [] c = c
use_each (u ∷ rest) c = use_each rest (use_webhook u c).1

-- The nonce stays known until `until`, with room for `n` more.
record Known (nonce : String) (until n : ℕ) (c : Connector) : Type 0 where
  entry : SeenNonce
  found : get nonce c.hmac_nonce_history ≡ some entry
  late : until ≤ entry.seen_at + hmac_nonce_ttl_seconds
  room : length c.hmac_nonce_history + n ≤ hmac_max_tracked_nonces

seen-Known :
    (nonce : String) (until n : ℕ) (u : Use) (history : List SeenNonce) (entry : SeenNonce)
    (c : Connector)
    → get nonce history ≡ some entry
    → until ≤ entry.seen_at + hmac_nonce_ttl_seconds
    → length history + (n + 1) ≤ hmac_max_tracked_nonces
    → Known nonce until n (seen_before history u.epoch u.at u.nonce c).1
seen-Known nonce until n u history entry c found late room =
    elim (Bool-cases (is_some (get u.nonce history))) [
      | inl used ↦
          rw used (record { entry = entry; found = found; late = late; room = omega (arith, room) })
      | inr fresh ↦
          let added : SeenNonce = record { nonce = u.nonce; seen_at = u.epoch } in
          let grown = length-put added history in
          rw fresh (record {
            entry = entry;
            found = ground (arith, get-put added nonce history, eq_iff u.nonce nonce, found, fresh);
            late = late;
            room = omega (arith, room, grown);
          })
    ]

recent :
    (until epoch : ℕ) (entry : SeenNonce)
    → epoch ≤ until
    → until ≤ entry.seen_at + hmac_nonce_ttl_seconds
    → is_recent epoch entry ≡ true
recent until epoch entry soon late = ground (arith, soon, late)

use-Known :
    (nonce : String) (until n : ℕ) (u : Use) (c : Connector)
    → u.epoch ≤ until
    → Known nonce until (n + 1) c
    → Known nonce until n (use_webhook u c).1
unfolding assert_hmac_v1_not_replayed
use-Known nonce until n u c soon k =
    let history = c.hmac_nonce_history in
    let kept = keep (is_recent u.epoch) history in
    let shorter = length-keep (is_recent u.epoch) history in
    subst (λ h. Known nonce until n (seen_before h u.epoch u.at u.nonce c).1)
      (sym (clean-short u.epoch history (omega (arith, k.room))))
      (seen-Known nonce until n u kept k.entry c
        (get-keep (is_recent u.epoch) nonce history k.entry k.found
          (recent until u.epoch k.entry soon k.late))
        k.late (omega (arith, k.room, shorter)))

uses-Known :
    (nonce : String) (until : ℕ) (uses : List Use) (c : Connector)
    → All (λ u. u.epoch ≤ until) uses
    → Known nonce until (length uses) c
    → Known nonce until 0 (use_each uses c)
uses-Known nonce until [] c soon k = k
uses-Known nonce until (u ∷ rest) c soon k =
    uses-Known nonce until rest (use_webhook u c).1 soon.1 (
      use-Known nonce until (length rest) u c soon.0
        (subst (λ n. Known nonce until n c) (omega arith) k))

refused-again :
    (nonce : String) (epoch : ℕ) (at : Instant) (history : List SeenNonce) (entry : SeenNonce)
    (c : Connector)
    → get nonce history ≡ some entry
    → (seen_before history epoch at nonce c).0 ≡ some WebhookError.nonce_used
refused-again nonce epoch at history entry c found = rw found refl

Known-refused :
    (nonce : String) (until : ℕ) (epoch : ℕ) (at : Instant) (c : Connector)
    → epoch ≤ until
    → Known nonce until 0 c
    → (assert_hmac_v1_not_replayed epoch at nonce c).0 ≡ some WebhookError.nonce_used
unfolding assert_hmac_v1_not_replayed
Known-refused nonce until epoch at c soon k =
    let history = c.hmac_nonce_history in
    subst (λ h. (seen_before h epoch at nonce c).0 ≡ some WebhookError.nonce_used)
      (sym (clean-short epoch history (omega (arith, k.room))))
      (refused-again nonce epoch at (keep (is_recent epoch) history) k.entry c (
        get-keep (is_recent epoch) nonce history k.entry k.found
          (recent until epoch k.entry soon k.late)))

accepted-Known :
    (nonce : String) (epoch : ℕ) (at : Instant) (n : ℕ) (history : List SeenNonce) (c : Connector)
    → (seen_before history epoch at nonce c).0 ≡ none
    → length (seen_before history epoch at nonce c).1.hmac_nonce_history + n
      ≤ hmac_max_tracked_nonces
    → Known nonce (epoch + hmac_nonce_ttl_seconds) n (seen_before history epoch at nonce c).1
accepted-Known nonce epoch at n history c accepted room =
    elim (Bool-cases (is_some (get nonce history))) [
      | inl used ↦ absurd (none-ne-some WebhookError.nonce_used (sym (rw used at accepted)))
      | inr fresh ↦
          let entry : SeenNonce = record { nonce = nonce; seen_at = epoch } in
          let room' = rw fresh at room in
          rw fresh (record {
            entry = entry;
            found = get-put_self entry nonce history refl;
            late = omega arith;
            room = room';
          })
    ]

first-Known :
    (epoch : ℕ) (at : Instant) (nonce : String) (c : Connector) (n : ℕ)
    → (assert_hmac_v1_not_replayed epoch at nonce c).0 ≡ none
    → length (assert_hmac_v1_not_replayed epoch at nonce c).1.hmac_nonce_history + n
      ≤ hmac_max_tracked_nonces
    → Known nonce
        (epoch + hmac_nonce_ttl_seconds)
        n
        (assert_hmac_v1_not_replayed epoch at nonce c).1
unfolding assert_hmac_v1_not_replayed
first-Known epoch at nonce c n =
    accepted-Known nonce epoch at n (clean_hmac_nonce_history epoch c.hmac_nonce_history) c

-- A nonce that was accepted is refused for the ten minutes that follow, whatever nonces come in
-- between, if the history with it and the uses in between are together no more than 200.
pub assert_hmac_v1_not_replayed-refused :
    (epoch : ℕ) (at : Instant) (nonce : String) (c : Connector) (uses : List Use) (later : Use)
    → (assert_hmac_v1_not_replayed epoch at nonce c).0 ≡ none
    → length (assert_hmac_v1_not_replayed epoch at nonce c).1.hmac_nonce_history + length uses
      ≤ hmac_max_tracked_nonces
    → All (λ u. u.epoch ≤ epoch + hmac_nonce_ttl_seconds) uses
    → later.epoch ≤ epoch + hmac_nonce_ttl_seconds
    → (assert_hmac_v1_not_replayed later.epoch later.at nonce
        (use_each uses (assert_hmac_v1_not_replayed epoch at nonce c).1)).0
      ≡ some WebhookError.nonce_used
assert_hmac_v1_not_replayed-refused epoch at nonce c uses later accepted room soon last =
    let first : Known nonce (epoch + hmac_nonce_ttl_seconds) (length uses)
        (assert_hmac_v1_not_replayed epoch at nonce c).1 =
      first-Known epoch at nonce c (length uses) accepted room in
    Known-refused nonce (epoch + hmac_nonce_ttl_seconds) later.epoch later.at
      (use_each uses (assert_hmac_v1_not_replayed epoch at nonce c).1) last
      (uses-Known nonce (epoch + hmac_nonce_ttl_seconds) uses
        (assert_hmac_v1_not_replayed epoch at nonce c).1 soon first)
