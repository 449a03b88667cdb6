-- ===== src/Trust/Tests.antt =====
-- The flight recorder at a concrete store, with a hash that is the actor of an event.
use aixion_control_tower.Prelude.{◌≡◌, ◌↔◌, refl, true, none, List, [], ◌∷◌, ◌++◌, String}
use aixion_control_tower.Trust.Models.{TrustEventType}
use aixion_control_tower.Trust.FlightRecorder.Chain.{
  TrustEventCall, TrustEvent, EventMaterial, ordered_events, append_trust_event,
  verify_flight_recorder,
}
use aixion_control_tower.Trust.FlightRecorder.ChainLaws.{IsChain, verify_flight_recorder_iff}
use aixion_control_tower.Trust.FlightRecorder.History.{
  append_trust_event-last, append_trust_event-valid, Recorded, start, record_event,
}

abbrev actor_hash : EventMaterial → String
actor_hash material = material.call.actor

abbrev issued_call : TrustEventCall
issued_call = record {
  event_type = TrustEventType.lease_issued;
  entity_type = "capability_lease";
  entity_id = "lease_1";
  actor = "owner@example.com";
  correlation_id = none;
  payload = [];
}

unfoldable one_event : List TrustEvent
unfolding append_trust_event
one_event = (append_trust_event actor_hash "event_1" 5 issued_call []).1

verify_flight_recorder_iff_example :
    ((verify_flight_recorder actor_hash one_event).valid ≡ true)
    ↔ IsChain actor_hash 1 none (ordered_events one_event)
verify_flight_recorder_iff_example = verify_flight_recorder_iff actor_hash one_event

append_trust_event-last_example :
    let (event, events) = append_trust_event actor_hash "event_2" 6 issued_call one_event in
    ordered_events events ≡ ordered_events one_event ++ event ∷ []
unfolding one_event verify_flight_recorder
append_trust_event-last_example =
    append_trust_event-last actor_hash "event_2" 6 issued_call one_event refl refl

append_trust_event-valid_example :
    (verify_flight_recorder actor_hash
      (append_trust_event actor_hash "event_2" 6 issued_call one_event).1).valid
    ≡ true
unfolding one_event verify_flight_recorder
append_trust_event-valid_example =
    append_trust_event-valid actor_hash "event_2" 6 issued_call one_event refl refl

abbrev first_record :
    Recorded actor_hash (append_trust_event actor_hash "event_1" 5 issued_call []).1
first_record = record_event "event_1" 5 issued_call start refl
