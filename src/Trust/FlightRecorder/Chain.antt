-- ===== src/Trust/FlightRecorder/Chain.antt =====
-- `append_trust_event` and `verify_flight_recorder`.
use aixion_control_tower.Prelude.{
  ℕ, ◌+◌, Bool, true, false, Option, none, some, List, [], ◌∷◌, String, ◌!=◌, option_eq, string_eq,
  nat_eq, if◌then◌else◌, length,
}
use aixion_control_tower.Prelude.Dict.{Keyed, put}
use aixion_control_tower.Prelude.Sort.{sort_by}
use aixion_control_tower.AgentRun.Models.{Instant}
use aixion_control_tower.Trust.Models.{TrustEventType}
use aixion_control_tower.Trust.Payload.{Payload}

-- What a caller says of an event.
pub record TrustEventCall : Type 0 where
  pub event_type : TrustEventType
  pub entity_type : String
  pub entity_id : String
  pub actor : String
  pub correlation_id : Option String
  pub payload : Payload

-- `TrustEvent`: the caller's fields are those of `call`.
pub record TrustEvent : Type 0 where
  pub id : String
  pub sequence : ℕ
  pub call : TrustEventCall
  pub previous_hash : Option String
  pub event_hash : String
  pub created_at : Instant

instance abbrev pub event_keyed : Keyed TrustEvent
event_keyed = record { key = λ e. e.id }

-- `_event_material`: everything but the id and the hash.
pub record EventMaterial : Type 0 where
  pub sequence : ℕ
  pub call : TrustEventCall
  pub previous_hash : Option String
  pub created_at : Instant

abbrev pub event_material : TrustEvent → EventMaterial
event_material event = record {
  sequence = event.sequence;
  call = event.call;
  previous_hash = event.previous_hash;
  created_at = event.created_at;
}

-- `sorted(store.trust_events.values(), key=lambda item: item.sequence)`
unfoldable pub ordered_events : List TrustEvent → List TrustEvent
ordered_events = sort_by (λ event. event.sequence)

-- `ordered[-1] if ordered else None`
abbrev pub last_event : List TrustEvent → Option TrustEvent
last_event [] = none
last_event (event ∷ []) = some event
last_event (event ∷ next ∷ rest) = last_event (next ∷ rest)

abbrev pub next_sequence : Option TrustEvent → ℕ
next_sequence none = 1
next_sequence (some event) = event.sequence + 1

abbrev pub hash_of : Option TrustEvent → Option String
hash_of none = none
hash_of (some event) = some event.event_hash

-- What `verify_flight_recorder` reports of the first bad event: its reason, without the wording.
pub data Defect : Type 0 where
  unexpected_sequence : (expected got : ℕ) → Defect
  predecessor_mismatch payload_mismatch : Defect

pub record FlightRecorderVerification : Type 0 where
  pub valid : Bool
  pub event_count : ℕ
  pub first_invalid_sequence : Option ℕ
  pub reason : Option Defect

abbrev pub invalid : ℕ → TrustEvent → Defect → FlightRecorderVerification
invalid count event defect = record {
  valid = false;
  event_count = count;
  first_invalid_sequence = some event.sequence;
  reason = some defect;
}

module _ (sha256_hex : EventMaterial → String) where
  -- The event that `append_trust_event` makes after `previous`.
  abbrev pub new_event : String → Instant → TrustEventCall → Option TrustEvent → TrustEvent
  new_event id now call previous =
      let pending : TrustEvent = record {
        id = id;
        sequence = next_sequence previous;
        call = call;
        previous_hash = hash_of previous;
        event_hash = "pending";
        created_at = now;
      } in
      record pending { event_hash = sha256_hex (event_material pending) }

  unfoldable pub append_trust_event :
      String → Instant → TrustEventCall → List TrustEvent → TrustEvent × List TrustEvent
  unfolding ordered_events
  append_trust_event id now call events =
      let event = new_event id now call (last_event (ordered_events events)) in
      (event, put event events)

  -- The loop of `verify_flight_recorder`.
  abbrev pub check_events : ℕ → ℕ → Option String → List TrustEvent → FlightRecorderVerification
  check_events count expected_sequence expected_previous [] = record {
    valid = true;
    event_count = count;
    first_invalid_sequence = none;
    reason = none;
  }
  check_events count expected_sequence expected_previous (event ∷ rest) =
      let later = check_events count (expected_sequence + 1) (some event.event_hash) rest in
      if event.sequence != expected_sequence
      then invalid count event (unexpected_sequence expected_sequence event.sequence)
      else if event.previous_hash != expected_previous
      then invalid count event predecessor_mismatch
      else if sha256_hex (event_material event) != event.event_hash
      then invalid count event payload_mismatch
      else later

  unfoldable pub verify_flight_recorder : List TrustEvent → FlightRecorderVerification
  unfolding ordered_events
  verify_flight_recorder events =
      check_events (length (ordered_events events)) 1 none (ordered_events events)
