-- ===== src/Trust/FlightRecorder/History.antt =====
-- Appending to the flight recorder, and the stores that appending reaches.
use aixion_control_tower.Prelude.{
  ◌+◌, ◌≤◌, ◌≡◌, refl, true, none, List, [], ◌∷◌, ◌++◌, String, arith, length, All, ◌∙◌, ap, sym,
}
use mathlib.Core.Path.{subst}
use aixion_control_tower.Prelude.Lists.{All-map}
use aixion_control_tower.Prelude.Dict.{get, put-fresh}
use aixion_control_tower.Prelude.Sort.{sort_by-last, sort_by-All}
use aixion_control_tower.AgentRun.Models.{Instant}
use aixion_control_tower.Trust.FlightRecorder.Chain.{
  TrustEventCall, TrustEvent, event_keyed, EventMaterial, ordered_events, last_event, next_sequence,
  new_event, append_trust_event, verify_flight_recorder,
}
use aixion_control_tower.Trust.FlightRecorder.ChainLaws.{
  IsChain, verify_flight_recorder_iff, chain-bound, chain-last, IsChain-extend,
}

module _ (sha256_hex : EventMaterial → String) where
  extended :
      (id : String) (now : Instant) (call : TrustEventCall) (es : List TrustEvent)
      → IsChain sha256_hex 1 none es
      → IsChain sha256_hex 1 none (es ++ new_event sha256_hex id now call (last_event es) ∷ [])
  extended id now call [] h = (refl, refl, refl, tt)
  extended id now call (e ∷ es) h =
      IsChain-extend sha256_hex 1 none e es (new_event sha256_hex id now call (last_event (e ∷ es)))
        h refl refl refl

  -- No event of a chain has a larger number than the next one to be appended.
  below_next :
      (id : String) (now : Instant) (call : TrustEventCall) (es : List TrustEvent)
      → IsChain sha256_hex 1 none es
      → All (λ x. x.sequence ≤ (new_event sha256_hex id now call (last_event es)).sequence) es
  below_next id now call [] h = tt
  below_next id now call (e ∷ es) h =
      let (l, is_last, number) = chain-last sha256_hex 1 none e es h in
      let next : next_sequence (last_event (e ∷ es)) ≡ 1 + length (e ∷ es) =
        ap next_sequence is_last ∙ number in
      All-map _ _ (e ∷ es) (λ x k. omega (arith, k, next))
        (chain-bound sha256_hex 1 none (e ∷ es) h)

  -- On a store that verifies, a new event under a fresh id becomes the last one, and the events
  -- recorded so far stay as they were, in their order.
  pub append_trust_event-last :
      (id : String) (now : Instant) (call : TrustEventCall) (events : List TrustEvent)
      → (verify_flight_recorder sha256_hex events).valid ≡ true
      → get id events ≡ none
      → let (event, events') = append_trust_event sha256_hex id now call events in
        ordered_events events' ≡ ordered_events events ++ event ∷ []
  unfolding append_trust_event ordered_events
  append_trust_event-last id now call events h fresh =
      let chain = (verify_flight_recorder_iff sha256_hex events).0 h in
      let event = new_event sha256_hex id now call (last_event (ordered_events events)) in
      ap ordered_events (put-fresh event events fresh)
      ∙ sort_by-last (λ x. x.sequence) event events
          (sort_by-All (λ x. x.sequence) _ events
            (below_next id now call (ordered_events events) chain))

  -- A store that verifies still verifies after an event is appended under a fresh id.
  pub append_trust_event-valid :
      (id : String) (now : Instant) (call : TrustEventCall) (events : List TrustEvent)
      → (verify_flight_recorder sha256_hex events).valid ≡ true
      → get id events ≡ none
      → (verify_flight_recorder sha256_hex
          (append_trust_event sha256_hex id now call events).1).valid
        ≡ true
  unfolding append_trust_event
  append_trust_event-valid id now call events h fresh =
      let chain = (verify_flight_recorder_iff sha256_hex events).0 h in
      (verify_flight_recorder_iff sha256_hex (append_trust_event sha256_hex id now call events).1).1
        (subst (IsChain sha256_hex 1 none)
          (sym (append_trust_event-last id now call events h fresh))
          (extended id now call (ordered_events events) chain))

  -- The stores that calls of `append_trust_event` alone lead to, each with a fresh id.
  pub data Recorded : List TrustEvent → Type 0 where
    start : Recorded []
    record_event :
        {events : List TrustEvent} (id : String) (now : Instant) (call : TrustEventCall)
        → Recorded events
        → get id events ≡ none
        → Recorded (append_trust_event sha256_hex id now call events).1

  -- Every store that was filled by `append_trust_event` alone, under fresh ids, verifies.
  pub Recorded-valid :
      {events : List TrustEvent}
      → Recorded events
      → (verify_flight_recorder sha256_hex events).valid ≡ true
  unfolding ordered_events
  Recorded-valid start = (verify_flight_recorder_iff sha256_hex []).1 tt
  Recorded-valid (record_event {events} id now call r fresh) =
      append_trust_event-valid id now call events (Recorded-valid r) fresh
